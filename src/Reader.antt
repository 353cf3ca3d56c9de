-- ===== src/Reader.antt =====
-- internal/rdb/structure/byte.go: reading bytes, and the panics of the decoder
-- (internal/log/func.go `Panicf`, `PanicError`, and Go's own run-time panics).
pub mod Laws
pub mod Tame
use redis_agent.Common.{ℕ, zero, suc, Bytes, List, [], ◌∷◌}
use redis_agent.Common.Int.{ℤ, pos, negsuc}

-- What a panic of the decoder reports.
pub data Fault : Type 0 where
  short_read bad_alloc index_out_of_range : Fault
  illegal_special illegal_length : ℕ → Fault
  unknown_string_type : ℕ → Fault
  lzf_mismatch : ℕ → ℕ → Fault
  bad_listpack_end bad_listpack_entry : ℕ → Fault
  unknown_type unknown_container odd_size unknown_opcode : ℕ → Fault
  not_implemented bad_float bad_integer bad_magic bad_master_end : Fault
  bad_ziplist_end bad_ziplist_immediate bad_ziplist_entry : ℕ → Fault

-- The result of a piece of the decoder. `stuck` is no Go value: a loop of the model ran out of
-- fuel.
pub data Result {ℓ} (A : Type ℓ) : Type ℓ where
  ok : A → Result A
  panic : Fault → Result A
  stuck : Result A

-- An `io.Reader` is the bytes that it has not delivered.
abbrev pub Reader : Type 0 → Type 0
Reader A = Bytes → Result (A × Bytes)

abbrev pub pure : {A : Type 0} → A → Reader A
pure a s = ok (a, s)

abbrev pub raise : {A : Type 0} → Fault → Reader A
raise e s = panic e

infixl 5 ◌>>=◌ ◌>>◌
abbrev pub ◌>>=◌ : {A B : Type 0} → Reader A → (A → Reader B) → Reader B
◌>>=◌ m f s = elim (m s) [ ok (a, s') ↦ f a s' | panic e ↦ panic e | stuck ↦ stuck ]

abbrev pub ◌>>◌ : {A B : Type 0} → Reader A → Reader B → Reader B
m >> k = m >>= λ _. k

-- A computation that reads nothing.
abbrev pub lift : {A : Type 0} → Result A → Reader A
lift (ok a) s = ok (a, s)
lift (panic e) s = panic e
lift stuck s = stuck

-- A computation on a string of its own: `bufio.NewReader(strings.NewReader(...))`. What it leaves
-- unread is dropped.
abbrev pub within : {A : Type 0} → Reader A → Bytes → Reader A
within m inner s = elim (m inner) [ ok (a, left) ↦ ok (a, s) | panic e ↦ panic e | stuck ↦ stuck ]

-- `for i := 0; i < n; i++` over a read whose results are collected.
unfoldable pub repeat_read : {A : Type 0} → ℕ → Reader A → Reader (List A)
repeat_read zero m = pure []
repeat_read (suc n) m = do a ← m; rest ← repeat_read n m; pure (a ∷ rest)

-- `io.ReadFull` into a buffer of n bytes.
unfoldable pub read_full : ℕ → Reader Bytes
read_full zero s = ok ([], s)
read_full (suc n) [] = panic short_read
read_full (suc n) (b ∷ s) = (read_full n >>= λ bs. pure (b ∷ bs)) s

-- `make([]byte, n)` panics on a negative n.
unfoldable pub read_bytes : ℤ → Reader Bytes
unfolding read_full
read_bytes (pos n) = read_full n
read_bytes (negsuc n) = raise bad_alloc

unfoldable pub read_byte : Reader ℕ
read_byte [] = panic short_read
read_byte (b ∷ s) = ok (b, s)
