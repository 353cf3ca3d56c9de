-- ===== src/Generate/Counted.antt =====
-- How the analysis counts the keys that are generated.
use redis_agent.Common.{
  ℕ, ◌<◌, zero, suc, ◌+◌, ◌^◌, true, if◌then◌else◌, Bytes, List, [], ◌∷◌, map, All, append_assoc,
  codes, same_bytes, same_bytes_refl, Option, some, ◌≡◌, ◌≢◌, refl, ◌∙◌, ap, arith, weigh,
}
use redis_agent.Common.Perms.{weigh-perm}
use mathlib.Core.List.{Perm}
use redis_agent.Decimal.{format_uint}
use redis_agent.Loader.{Entry}
use redis_agent.Analysis.{add_entries}
use redis_agent.Analysis.Owner.{owner, is_owner, owner-append}
use redis_agent.Analysis.Sums.{row_of, sum_for, one_key, add_entries-sum_for}
use redis_agent.Generate.{GenerateUserDataParam, key_at, generate_string, generate_data}
use redis_agent.Generate.Keys.{commands, Passed, set_from-Passed}

-- What a key counts for a user.
abbrev key_weight : Bytes → Bytes → ℕ
key_weight name key = if is_owner name (owner key) then 1 else 0

sum_for-weigh :
    (name : Bytes) (es : List Entry)
    → sum_for name one_key es ≡ weigh (key_weight name) (map (λ e. e.key) es)
sum_for-weigh name [] = refl
sum_for-weigh name (e ∷ es) = ap (λ n. key_weight name e.key + n) (sum_for-weigh name es)

owner-key_at :
    (user_name : Bytes) (i : ℕ)
    → All (λ b. b ≢ 58) user_name
    → owner (key_at user_name i) ≡ some user_name
owner-key_at user_name i h =
    ap owner (append_assoc user_name _ _) ∙ owner-append user_name (format_uint i) h

key_weight-key_at :
    (user_name : Bytes) (i : ℕ)
    → All (λ b. b ≢ 58) user_name
    → key_weight user_name (key_at user_name i) ≡ 1
key_weight-key_at user_name i h = rw (owner-key_at user_name i h, same_bytes_refl user_name) refl

weigh-commands :
    (values : ℕ → Bytes) (user_name : Bytes) (i n : ℕ)
    → All (λ b. b ≢ 58) user_name
    → weigh (key_weight user_name) (map (λ c. c.0) (commands values user_name i n)) ≡ n
weigh-commands values user_name i zero h = refl
weigh-commands values user_name i (suc n) h =
    omega (arith, key_weight-key_at user_name i h, weigh-commands values user_name (i + 1) n h)

-- A user whose name has no colon and for whom a task has generated strings, every reply being
-- without an error: where the entries of a dump have just the keys that were sent, in any order,
-- the analysis counts for that user the number of keys that the task was asked for.
pub generate_data-counted :
    (values : ℕ → Bytes) (replies : ℕ → Option Bytes) (param : GenerateUserDataParam)
    (es : List Entry)
    → same_bytes param.redis_type (codes "string") ≡ true
    → All (λ b. b ≢ 58) param.user_name
    → param.count < 2 ^ 64
    → Passed replies 0 param.count
    → Perm (map (λ e. e.key) es) (map (λ c. c.0) (generate_data values replies param).sent)
    → (row_of param.user_name (add_entries es [])).key_count ≡ param.count
unfolding generate_data generate_string
generate_data-counted values replies param es kind plain small passed order =
    let name = param.user_name in
    let sent : (generate_data values replies param).sent ≡ commands values name 0 param.count =
      rw kind (ap (λ m. m.sent) (set_from-Passed values replies name 0 param.count passed)) in
    let total : sum_for name one_key es ≡ param.count =
      sum_for-weigh name es
      ∙ weigh-perm (key_weight name) order
      ∙ ap (λ cs. weigh (key_weight name) (map (λ c. c.0) cs)) sent
      ∙ weigh-commands values name 0 param.count plain in
    omega (arith, (add_entries-sum_for name es).0, total)
