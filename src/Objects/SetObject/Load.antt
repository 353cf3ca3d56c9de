-- ===== src/Objects/SetObject/Load.antt =====
-- What `LoadFromBuffer` makes of both encodings of a set.
use redis_agent.Common.{◌^◌, ◌<◌, Bytes, List, map, length, ◌≡◌, ◌∙◌, ap, arith, All}
use redis_agent.Common.Int.{ℤ}
use redis_agent.Reader.{ok}
use redis_agent.Reader.Laws.{bind_ok, repeat_read-put_all}
use redis_agent.Numbers.Laws.{Fits}
use redis_agent.Length.{read_length}
use redis_agent.Length.RoundTrip.{read_length-put_length}
use redis_agent.Length.Counted.{put_counted, int_of_small}
use redis_agent.Text.{read_string}
use redis_agent.Text.RoundTrip.{put_raw, read_string-put_raw}
use redis_agent.Decimal.{format_int}
use redis_agent.Intset.RoundTrip.{IntWidth, bits_of, put_intset, read_intset-put_intset}
use redis_agent.Objects.ListObject.Load.{IsShort, map_id}
use redis_agent.Objects.SetObject.{read_set, read_elements, load_from_buffer}

read_set-put_members :
    (ts : List Bytes) (s : Bytes)
    → length ts < 2 ^ 63
    → All IsShort ts
    → read_set (put_counted put_raw ts s) ≡ ok (ts, s)
unfolding read_set
read_set-put_members ts s n h =
    bind_ok read_length _ _ (read_length-put_length (length ts) _ (omega arith))
    ∙ rw (int_of_small (length ts) n)
        (repeat_read-put_all read_string put_raw (λ t. t) IsShort read_string-put_raw ts s h)
    ∙ ap (λ v. ok (v, s)) (map_id ts)

pub load_from_buffer-put_members :
    (key : Bytes) (ts : List Bytes) (s : Bytes)
    → length ts < 2 ^ 63
    → All IsShort ts
    → load_from_buffer key 2 (put_counted put_raw ts s)
      ≡ ok (record { key = key; elements = ts }, s)
unfolding load_from_buffer read_elements
load_from_buffer-put_members key ts s n h =
    bind_ok (read_elements 2) _ _ (read_set-put_members ts s n h)

pub load_from_buffer-put_intset :
    (key : Bytes) (w : IntWidth) (zs : List ℤ) (s : Bytes)
    → length zs < 2 ^ 32
    → All (Fits (bits_of w)) zs
    → length (put_intset w zs) < 2 ^ 63
    → load_from_buffer key 11 (put_raw (put_intset w zs) s)
      ≡ ok (record { key = key; elements = map format_int zs }, s)
unfolding load_from_buffer read_elements
load_from_buffer-put_intset key w zs s n h size =
    bind_ok (read_elements 11) _ _ (read_intset-put_intset w zs s n h size)
