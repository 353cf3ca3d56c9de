-- ===== src/Loader/Times.antt =====
-- The time that a key has left to live, as rdb.go works it out, and its numbers of eviction.
use redis_agent.Common.{ℕ, ◌*◌, ◌%◌, ◌^◌, ◌<◌, ◌==◌, if◌then◌else◌, ◌≡◌, arith}
use redis_agent.Common.Int.{pos, sub_ℕ, sub64, int_of_u64, is_zero, is_negative}
use redis_agent.Loader.{Loader, with_expire, with_idle, with_freq}
use redis_agent.Loader.Dump.{
  Expiry, Eviction, no_expiry, at_ms, at_seconds, no_eviction, idle_for, used,
}

small_mod : (t : ℕ) → t < 2 ^ 63 → t % 2 ^ 64 ≡ t
small_mod t h = omega arith

sub64-sub_ℕ : (t m : ℕ) → t < 2 ^ 63 → m < 2 ^ 63 → sub64 (pos t) (pos m) ≡ sub_ℕ t m
unfolding sub64
sub64-sub_ℕ t m h k = rw (small_mod t h, small_mod m k) (ground arith)

pub is_zero-clamp :
    (t m : ℕ)
    → t < 2 ^ 63
    → m < 2 ^ 63
    → is_zero (if is_negative (sub64 (pos t) (pos m)) then pos 1 else sub64 (pos t) (pos m))
      ≡ (t == m)
is_zero-clamp t m h k = rw (sub64-sub_ℕ t m h k) (ground arith)

abbrev pub time_left : ℕ → Expiry → Loader → Loader
time_left now no_expiry ld = ld
time_left now (at_ms t) ld = with_expire (sub64 (int_of_u64 t) (pos now)) ld
time_left now (at_seconds t) ld = with_expire (sub64 (pos (t * 1000)) (pos now)) ld

abbrev pub evicted : Eviction → Loader → Loader
evicted no_eviction ld = ld
evicted (idle_for n) ld = with_idle (int_of_u64 n) ld
evicted (used b) ld = with_freq (pos b) ld
