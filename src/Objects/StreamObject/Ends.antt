-- ===== src/Objects/StreamObject/Ends.antt =====
-- Loading a stream ends on every input.
use redis_agent.Common.{
  ℕ, ◌==◌, ltb, Bytes, List, [], ◌∷◌, ◌++◌, length, take, drop, codes, ◌≢◌, refl,
}
use redis_agent.Common.Int.{pos, signed, int_of_u64, rounds}
use redis_agent.Reader.{
  Result, ok, panic, stuck, Reader, ◌>>=◌, pure, repeat_read, unknown_type, index_out_of_range,
  read_bytes,
}
use redis_agent.Reader.Tame.{
  Tame, pure-Tame, raise-Tame, lift-Tame, if-Tame, bind-Tame, repeat_read-Tame, read_bytes-Tame,
}
use redis_agent.Numbers.{be_value, read_uint64}
use redis_agent.Numbers.Ends.{read_uint64-Tame}
use redis_agent.Length.{read_length}
use redis_agent.Text.{read_string}
use redis_agent.Text.Ends.{read_string-Tame, read_length-Tame}
use redis_agent.Listpack.{read_listpack}
use redis_agent.Listpack.Ends.{read_listpack-Tame}
use redis_agent.Objects.{RedisCmd}
use redis_agent.Objects.StreamEntries.Ends.{read_elements-not_stuck}
use redis_agent.Objects.StreamObject.{
  StreamObject, concat, format_id, commands_of, master_commands, check_id, read_stream_node,
  skip_offsets, skip_group_offset, read_id, Pending, read_pending, fill, xclaim, read_claim,
  read_consumer, read_group, closing, read_stream, load_from_buffer,
}

commands_of-not_stuck :
    (r : Result (List RedisCmd × List Bytes)) → r ≢ stuck → commands_of r ≢ stuck
commands_of-not_stuck (ok (cmds, es)) h e = cc
commands_of-not_stuck (panic x) h e = cc
commands_of-not_stuck stuck h e = h refl

-- A read whose value is dropped.
skip-Tame : {A : Type 0} (k : Reader A) → Tame k → Tame (read_length >>= λ _. k)
skip-Tame k h = bind-Tame read_length _ read_length-Tame (λ _. h)

check_id-Tame : (id : Bytes) → Tame (check_id id)
unfolding check_id
check_id-Tame id = if-Tame (ltb (length id) 16) _ _ (raise-Tame index_out_of_range) (pure-Tame tt)

-- A number of things with that number in front, and what follows them.
counted_then-Tame :
    {A B : Type 0} (m : Reader A) (k : ℕ → List A → Reader B)
    → Tame m
    → ((n : ℕ) (xs : List A) → Tame (k n xs))
    → Tame (read_length >>= λ n. repeat_read (rounds (int_of_u64 n)) m >>= λ xs. k n xs)
counted_then-Tame m k h hk = bind-Tame read_length _ read_length-Tame (λ n.
    bind-Tame (repeat_read (rounds (int_of_u64 n)) m) _
      (repeat_read-Tame (rounds (int_of_u64 n)) m h) (hk n))

read_id-Tame : Tame read_id
unfolding read_id
read_id-Tame =
    bind-Tame (read_bytes (pos 16)) _ (read_bytes-Tame (pos 16))
      (λ tmp. pure-Tame (format_id (be_value (take 8 tmp)) (be_value (drop 8 tmp))))

read_pending-Tame : Tame read_pending
unfolding read_pending
read_pending-Tame = bind-Tame read_id _ read_id-Tame (λ id.
    bind-Tame read_uint64 _ read_uint64-Tame
      (λ time. bind-Tame read_length _ read_length-Tame (λ count. pure-Tame (id, time, count))))

module _ (master_key : Bytes) where
  read_stream_node-Tame : Tame (read_stream_node master_key)
  unfolding read_stream_node
  read_stream_node-Tame = bind-Tame read_string _ read_string-Tame (λ id.
      bind-Tame (check_id id) _ (check_id-Tame id) (λ _.
        bind-Tame read_listpack _ read_listpack-Tame (λ elements.
          lift-Tame (master_commands master_key id elements) (
            commands_of-not_stuck _ (
              read_elements-not_stuck master_key (signed 64 (be_value (take 8 id)))
                (signed 64 (be_value (take 8 (drop 8 id)))) elements)))))

  read_claim-Tame :
      (group consumer : Bytes) (m : Pending) → Tame (read_claim master_key group consumer m)
  unfolding read_claim
  read_claim-Tame group consumer m =
      bind-Tame read_id _ read_id-Tame (λ id. pure-Tame (xclaim master_key group consumer m id))

  read_consumer-Tame : (group : Bytes) (m : Pending) → Tame (read_consumer master_key group m)
  unfolding read_consumer
  read_consumer-Tame group m = bind-Tame read_string _ read_string-Tame (λ consumer.
      bind-Tame read_uint64 _ read_uint64-Tame (λ _. bind-Tame read_length _ read_length-Tame (λ n.
        repeat_read-Tame (rounds (int_of_u64 n)) (read_claim master_key group consumer m)
          (read_claim-Tame group consumer m))))

  module _ (type_byte : ℕ) where
    skip_group_offset-Tame : Tame (skip_group_offset type_byte)
    unfolding skip_group_offset
    skip_group_offset-Tame =
        if-Tame (type_byte == 19) _ _ (skip-Tame _ (pure-Tame tt)) (pure-Tame tt)

    skip_offsets-Tame : Tame (skip_offsets type_byte)
    unfolding skip_offsets
    skip_offsets-Tame =
        if-Tame (type_byte == 19) _ _
          (skip-Tame _ (skip-Tame _ (skip-Tame _ (skip-Tame _ (skip-Tame _ (pure-Tame tt))))))
          (pure-Tame tt)

    read_group-Tame : Tame (read_group master_key type_byte)
    unfolding read_group
    read_group-Tame = bind-Tame read_string _ read_string-Tame (λ group.
        bind-Tame read_length _ read_length-Tame (λ ms.
          bind-Tame read_length _ read_length-Tame (λ sq.
            bind-Tame (skip_group_offset type_byte) _ skip_group_offset-Tame (λ _.
              counted_then-Tame read_pending _ read_pending-Tame (λ n pel.
                counted_then-Tame (read_consumer master_key group (fill pel [])) _
                  (read_consumer-Tame group (fill pel []))
                  (λ n' claims. pure-Tame (
                    (codes "CREATE" ∷ master_key ∷ group ∷ format_id ms sq ∷ [])
                    ∷ concat claims)))))))

    read_stream-Tame : Tame (read_stream master_key type_byte)
    unfolding read_stream
    read_stream-Tame =
        counted_then-Tame (read_stream_node master_key) _ read_stream_node-Tame (λ n nodes.
          skip-Tame _ (
            bind-Tame read_length _ read_length-Tame (λ ms.
              bind-Tame read_length _ read_length-Tame (λ sq.
                bind-Tame (skip_offsets type_byte) _ skip_offsets-Tame (λ _.
                  counted_then-Tame (read_group master_key type_byte) _ read_group-Tame
                    (λ n' groups. pure-Tame (
                      concat nodes
                      ++ (closing master_key (int_of_u64 n) (format_id ms sq)
                          ++ concat groups))))))))

    loaded-Tame : Tame {A = StreamObject} (
        read_stream master_key type_byte >>= λ cmds.
        pure (record { key = master_key; cmds = cmds }))
    loaded-Tame =
        bind-Tame (read_stream master_key type_byte) _ read_stream-Tame
          (λ cmds. pure-Tame (record { key = master_key; cmds = cmds }))

    pub stream-Tame : Tame (load_from_buffer master_key type_byte)
    unfolding load_from_buffer
    stream-Tame =
        if-Tame (type_byte == 15) _ _ loaded-Tame
          (if-Tame (type_byte == 19) _ _ loaded-Tame (raise-Tame (unknown_type type_byte)))
