-- ===== src/Dispatch/Order.antt =====
-- Sets, sorted sets and hashes whose elements stand in another order. Go leaves the order open in
-- which it runs through the map of a hash.
use redis_agent.Common.{ℕ, ◌+◌, ◌%◌, ◌^◌, List, [], ◌∷◌, map, ◌≡◌, refl, sym, ◌∙◌, ap, arith, weigh}
use redis_agent.Common.Perms.{weigh-perm, length-perm}
use mathlib.Core.List.{Perm}
use redis_agent.Memory.{dict_entry_overhead, sds_overhead, zskiplist_node_overhead}
use redis_agent.Objects.{sum64}
use redis_agent.Objects.SetObject.{SetObject}
use redis_agent.Objects.SetObject as Sets
use redis_agent.Objects.HashObject.{HashObject, field_overhead}
use redis_agent.Objects.HashObject as Hashes
use redis_agent.Objects.ZsetObject.{ZsetObject}
use redis_agent.Objects.ZsetObject as Zsets
use redis_agent.Dispatch.{RedisObject, set_object, zset_object, hash_object, mem_overhead}

-- The same object, but for the order of its elements.
pub data Reordered : RedisObject → RedisObject → Type 0 where
  same : (o : RedisObject) → Reordered o o
  sets :
      (o p : SetObject)
      → o.key ≡ p.key
      → Perm o.elements p.elements
      → Reordered (set_object o) (set_object p)
  hashes :
      (o p : HashObject)
      → o.key ≡ p.key
      → Perm o.value p.value
      → Reordered (hash_object o) (hash_object p)
  zsets :
      (o p : ZsetObject)
      → o.key ≡ p.key
      → Perm o.elements p.elements
      → Reordered (zset_object o) (zset_object p)

module _ {ℓ} {A : Type ℓ} where
  sum64-weigh : (w : A → ℕ) (xs : List A) → sum64 (map w xs) ≡ weigh w xs % 2 ^ 64
  unfolding sum64
  sum64-weigh w [] = omega arith
  sum64-weigh w (x ∷ xs) = omega (arith, sum64-weigh w xs)

  pub sum64-perm : (w : A → ℕ) {xs ys : List A} → Perm xs ys → sum64 (map w xs) ≡ sum64 (map w ys)
  sum64-perm w {xs} {ys} p =
      sum64-weigh w xs ∙ ap (λ n. n % 2 ^ 64) (weigh-perm w p) ∙ sym (sum64-weigh w ys)

-- The estimate of a set, a sorted set or a hash does not depend on the order of its elements, so it
-- does not depend on the order in which Go runs through the map of a hash.
pub mem_overhead-Reordered : (o p : RedisObject) → Reordered o p → mem_overhead o ≡ mem_overhead p
unfolding mem_overhead Sets.mem_overhead Hashes.mem_overhead Zsets.mem_overhead
mem_overhead-Reordered o p (same q) = refl
mem_overhead-Reordered o p (sets a b key elements) =
    rw
      (
        key,
        length-perm elements,
        sum64-perm (λ element. (dict_entry_overhead + sds_overhead element) % 2 ^ 64) elements,
      )
      refl
mem_overhead-Reordered o p (hashes a b key value) =
    rw (key, length-perm value, sum64-perm field_overhead value) refl
mem_overhead-Reordered o p (zsets a b key elements) =
    rw
      (
        key,
        length-perm elements,
        sum64-perm
            (λ element. (dict_entry_overhead + zskiplist_node_overhead element.member) % 2 ^ 64)
            elements,
      )
      refl
