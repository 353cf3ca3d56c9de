-- ===== src/Objects/Packed.antt =====
-- The hashes and sorted sets that Redis packs into one ziplist or listpack, field after value.
use redis_agent.Common.{
  ℕ, ◌%◌, ◌^◌, ◌<◌, Bytes, List, [], ◌∷◌, map, length, ◌≡◌, refl, ◌∙◌, ap, arith, All,
}
use redis_agent.Reader.{ok}
use redis_agent.Reader.Laws.{bind_ok}
use redis_agent.Text.RoundTrip.{put_raw}
use redis_agent.ZipList.{read_zip_list}
use redis_agent.Listpack.{read_listpack}
use redis_agent.Listpack.RoundTrip as Pack
use redis_agent.Objects.{pairs}
use redis_agent.Objects.ListObject.Load as Load
use redis_agent.Objects.HashObject as Hashes
use redis_agent.Objects.ZsetObject.{ZsetEntry, entry_of, FloatOps, even_pairs}
use redis_agent.Objects.ZsetObject as Zsets

pub data Packed : Type 0 where
  in_ziplist : Load.Zipped → Packed
  in_listpack : ℕ → List Pack.Stored → Packed

abbrev pub put_packed : Packed → Bytes → Bytes
put_packed (in_ziplist z) s = Load.put_zipped z s
put_packed (in_listpack total es) s = put_raw (Pack.put_listpack total es) s

abbrev pub packed_elements : Packed → List Bytes
packed_elements (in_ziplist z) = Load.zipped_elements z
packed_elements (in_listpack total es) = Pack.meanings es

abbrev pub PackedFits : Packed → Type 0
PackedFits (in_ziplist z) = Load.ZippedFits z
PackedFits (in_listpack total es) =
    (total < 2 ^ 32)
    × (length es < 2 ^ 16)
    × All Pack.StoredFits es
    × (length (Pack.put_listpack total es) < 2 ^ 63)

-- Each pair as two elements.
abbrev pub flat : List (Bytes × Bytes) → List Bytes
flat [] = []
flat ((a, b) ∷ ps) = a ∷ b ∷ flat ps

pairs-flat : (ps : List (Bytes × Bytes)) → pairs (flat ps) ≡ ok ps
unfolding pairs
pairs-flat [] = refl
pairs-flat ((a, b) ∷ ps) = rw (pairs-flat ps) refl

length-flat : (ps : List (Bytes × Bytes)) → length (flat ps) % 2 ≡ 0
length-flat [] = omega arith
length-flat (p ∷ ps) = omega (arith, length-flat ps)

abbrev pub PairsFit : Packed → List (Bytes × Bytes) → Type 0
PairsFit p ps = PackedFits p × (packed_elements p ≡ flat ps)

abbrev pub hash_type : Packed → ℕ
hash_type (in_ziplist z) = 13
hash_type (in_listpack total es) = 16

abbrev pub zset_type : Packed → ℕ
zset_type (in_ziplist z) = 12
zset_type (in_listpack total es) = 17

read_ziplist :
    (z : Load.Zipped) (ps : List (Bytes × Bytes)) (s : Bytes)
    → PairsFit (in_ziplist z) ps
    → read_zip_list (put_packed (in_ziplist z) s) ≡ ok (flat ps, s)
read_ziplist z ps s (h, e) = Load.read_zip_list-put_zipped z s h ∙ ap (λ l. ok (l, s)) e

read_pack :
    (total : ℕ) (es : List Pack.Stored) (ps : List (Bytes × Bytes)) (s : Bytes)
    → PairsFit (in_listpack total es) ps
    → read_listpack (put_packed (in_listpack total es) s) ≡ ok (flat ps, s)
read_pack total es ps s ((h, n, fits, size), e) =
    Pack.read_listpack-put_listpack total es s h n fits size ∙ ap (λ l. ok (l, s)) e

read_value-put_hash :
    (p : Packed) (ps : List (Bytes × Bytes)) (s : Bytes)
    → PairsFit p ps
    → Hashes.read_value (hash_type p) (put_packed p s) ≡ ok (Hashes.insert_all ps [], s)
unfolding Hashes.read_value Hashes.read_hash_ziplist Hashes.read_hash_listpack
read_value-put_hash (in_ziplist z) ps s h =
    bind_ok read_zip_list _ _ (read_ziplist z ps s h) ∙ rw (pairs-flat ps) refl
read_value-put_hash (in_listpack total es) ps s h =
    bind_ok read_listpack _ _ (read_pack total es ps s h) ∙ rw (pairs-flat ps) refl

-- A packed hash is loaded as the map of its pairs.
pub load_from_buffer-put_hash :
    (key : Bytes) (p : Packed) (ps : List (Bytes × Bytes)) (s : Bytes)
    → PairsFit p ps
    → Hashes.load_from_buffer key (hash_type p) (put_packed p s)
      ≡ ok (record { key = key; value = Hashes.insert_all ps [] }, s)
unfolding Hashes.load_from_buffer
load_from_buffer-put_hash key p ps s h =
    bind_ok (Hashes.read_value (hash_type p)) _ _ (read_value-put_hash p ps s h)

even_pairs-flat :
    (ops : FloatOps) (ps : List (Bytes × Bytes)) (s : Bytes)
    → even_pairs ops (flat ps) s ≡ ok (map entry_of ps, s)
unfolding even_pairs
even_pairs-flat ops ps s = rw (length-flat ps, pairs-flat ps) refl

read_elements-put_zset :
    (ops : FloatOps) (p : Packed) (ps : List (Bytes × Bytes)) (s : Bytes)
    → PairsFit p ps
    → Zsets.read_elements ops (zset_type p) (put_packed p s) ≡ ok (map entry_of ps, s)
unfolding Zsets.read_elements Zsets.read_zset_ziplist Zsets.read_zset_listpack
read_elements-put_zset ops (in_ziplist z) ps s h =
    bind_ok read_zip_list _ _ (read_ziplist z ps s h) ∙ even_pairs-flat ops ps s
read_elements-put_zset ops (in_listpack total es) ps s h =
    bind_ok read_listpack _ _ (read_pack total es ps s h) ∙ even_pairs-flat ops ps s

-- A packed sorted set is loaded with its members and the texts of their scores, in order.
pub load_from_buffer-put_zset :
    (ops : FloatOps) (key : Bytes) (p : Packed) (ps : List (Bytes × Bytes)) (s : Bytes)
    → PairsFit p ps
    → Zsets.load_from_buffer ops key (zset_type p) (put_packed p s)
      ≡ ok (record { key = key; elements = map entry_of ps }, s)
unfolding Zsets.load_from_buffer
load_from_buffer-put_zset ops key p ps s h =
    bind_ok (Zsets.read_elements ops (zset_type p)) _ _ (read_elements-put_zset ops p ps s h)
