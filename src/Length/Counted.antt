-- ===== src/Length/Counted.antt =====
-- A number of things with that number in front, as the decoders of internal/rdb/types read them.
use redis_agent.Common.{ℕ, ◌^◌, ◌<◌, Bytes, List, map, length, ◌≡◌, ◌∙◌, ap, arith, All}
use redis_agent.Common.Int.{pos, int_of_u64, rounds}
use redis_agent.Reader.{ok, Reader, ◌>>=◌, repeat_read}
use redis_agent.Reader.Laws.{bind_ok, put_all, repeat_read-put_all}
use redis_agent.Length.{read_length}
use redis_agent.Length.RoundTrip.{put_length, read_length-put_length}

pub int_of_small : (n : ℕ) → n < 2 ^ 63 → int_of_u64 n ≡ pos n
int_of_small n h = ground arith

pub rounds_of : (n : ℕ) → n < 2 ^ 63 → rounds (int_of_u64 n) ≡ n
rounds_of n h = ap rounds (int_of_small n h)

module _ {X : Type 0} where
  abbrev pub put_counted : (X → Bytes → Bytes) → List X → Bytes → Bytes
  put_counted put xs s = put_length (length xs) (put_all put xs s)

  pub counted :
      {A : Type 0} (m : Reader A) (put : X → Bytes → Bytes) (val : X → A) (P : X → Type 0)
      → ((x : X) (s : Bytes) → P x → m (put x s) ≡ ok (val x, s))
      → (xs : List X) (s : Bytes) → length xs < 2 ^ 63
      → All P xs
      → (read_length >>= λ size. repeat_read (rounds (int_of_u64 size)) m) (put_counted put xs s)
        ≡ ok (map val xs, s)
  counted m put val P each xs s n h =
      bind_ok read_length _ (put_counted put xs s)
        (read_length-put_length (length xs) (put_all put xs s) (omega arith))
      ∙ rw (rounds_of (length xs) n) (repeat_read-put_all m put val P each xs s h)
