-- ===== src/Pipeline/Totals.antt =====
-- What the records of a dump come to for each user, before and after the shares of the rehash
-- overhead.
use redis_agent.Common.{
  ℕ, ◌+◌, Bool, true, false, if◌then◌else◌, Bool-cases, Bytes, List, [], ◌∷◌, ◌++◌, map, same_bytes,
  ◌⊎◌, inl, inr, ◌≡◌, refl, ◌∙◌, ap, arith,
}
use redis_agent.Common.Int.{ℤ, pos}
use redis_agent.Loader.{Entry, script_entry}
use redis_agent.Loader.Dump.{
  Expiry, Item, select_db, resize_db, aux_text, stream_db, script, keyed, View, entry_of, view_item,
  view_items, item_end,
}
use redis_agent.Dispatch.RoundTrip.{Value}
use redis_agent.Analysis.{UserOverhead, Users, new_user}
use redis_agent.Analysis.Owner.{owner, is_owner}
use redis_agent.Analysis.Sums.{row_of, sum_for}

-- What a record counts for a user: nothing unless it is a key of the user.
abbrev pub item_for : Bytes → (Entry → ℕ) → ℕ → Item → ℕ
item_for name f now (keyed x e key v) =
    if is_owner name (owner key) then f (entry_of (pos 0) now x key v) else 0
item_for name f now item = 0

abbrev pub items_for : Bytes → (Entry → ℕ) → (ℕ → ℕ) → ℕ → List Item → ℕ
items_for name f clock i [] = 0
items_for name f clock i (item ∷ items) =
    item_for name f (clock i) item + items_for name f clock (item_end item i) items

sum_for-append :
    (name : Bytes) (f : Entry → ℕ) (es ds : List Entry)
    → sum_for name f (es ++ ds) ≡ sum_for name f es + sum_for name f ds
sum_for-append name f [] ds = omega arith
sum_for-append name f (e ∷ es) ds = omega (arith, sum_for-append name f es ds)

-- The database of an entry does not count.
abbrev pub Blind : (Entry → ℕ) → Type 0
Blind f =
    (db : ℤ) (now : ℕ) (x : Expiry) (key : Bytes) (v : Value)
    → f (entry_of db now x key v) ≡ f (entry_of (pos 0) now x key v)

sum_for-view_item :
    (name : Bytes) (f : Entry → ℕ)
    → Blind f
    → (now : ℕ) (item : Item) (w : View)
    → sum_for name f (view_item now item w).sent ≡ sum_for name f w.sent + item_for name f now item
unfolding owner
sum_for-view_item name f blind now (select_db n) w = omega arith
sum_for-view_item name f blind now (resize_db a b) w = omega arith
sum_for-view_item name f blind now (aux_text k v) w = omega arith
sum_for-view_item name f blind now (stream_db z) w = omega arith
sum_for-view_item name f blind now (script t) w =
    omega (arith, sum_for-append name f w.sent (script_entry t ∷ []))
sum_for-view_item name f blind now (keyed x e key v) w = omega (
  arith,
  sum_for-append name f w.sent (entry_of w.db now x key v ∷ []),
  one (is_owner name (owner key)),
)
  where
    one :
        (b : Bool)
        → (if b then f (entry_of w.db now x key v) else 0) + 0
          ≡ (if b then f (entry_of (pos 0) now x key v) else 0)
    one true = omega (arith, blind w.db now x key v)
    one false = omega arith

pub sum_for-view_items :
    (name : Bytes) (f : Entry → ℕ)
    → Blind f
    → (clock : ℕ → ℕ) (i : ℕ) (items : List Item) (w : View)
    → sum_for name f (view_items clock i items w).sent
      ≡ sum_for name f w.sent + items_for name f clock i items
sum_for-view_items name f blind clock i [] w = omega arith
sum_for-view_items name f blind clock i (item ∷ items) w = omega (
  arith,
  sum_for-view_items name f blind clock (item_end item i) items (view_item (clock i) item w),
  sum_for-view_item name f blind (clock i) item w,
)

-- A row after a change of every row that keeps the names.
pub row_of-map :
    (name : Bytes) (change : UserOverhead → UserOverhead) (us : Users)
    → ((u : UserOverhead) → (change u).user_name ≡ u.user_name)
    → ((row_of name us ≡ new_user name) × (row_of name (map change us) ≡ new_user name))
      ⊎ (row_of name (map change us) ≡ change (row_of name us))
row_of-map name change [] keeps = inl (refl, refl)
row_of-map name change (u ∷ us) keeps =
    let kept : same_bytes (change u).user_name name ≡ same_bytes u.user_name name =
      ap (λ n. same_bytes n name) (keeps u) in
    elim (Bool-cases (same_bytes u.user_name name)) [
      | inl h ↦ inr (rw (kept ∙ h, h) refl)
      | inr h ↦ rw (kept ∙ h, h) (row_of-map name change us keeps)
    ]

pub map-twice :
    (f g : UserOverhead → UserOverhead) (us : Users) → map g (map f us) ≡ map (λ u. g (f u)) us
map-twice f g [] = refl
map-twice f g (u ∷ us) = ap (λ vs. g (f u) ∷ vs) (map-twice f g us)

-- A field that the change keeps.
pub map-kept :
    (field : UserOverhead → ℕ) (change : UserOverhead → UserOverhead) (us : Users)
    → ((u : UserOverhead) → field (change u) ≡ field u)
    → map field (map change us) ≡ map field us
map-kept field change [] keeps = refl
map-kept field change (u ∷ us) keeps = rw (keeps u, map-kept field change us keeps) refl
