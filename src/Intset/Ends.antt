-- ===== src/Intset/Ends.antt =====
-- Reading an intset ends on every input.
use redis_agent.Common.{ℕ}
use redis_agent.Common.Int.{pos}
use redis_agent.Reader.{read_bytes}
use redis_agent.Reader.Tame.{
  Tame, pure-Tame, bind-Tame, repeat_read-Tame, within-Tame, read_bytes-Tame,
}
use redis_agent.Numbers.{read_uint32}
use redis_agent.Numbers.Ends.{read_uint32-Tame}
use redis_agent.Text.{read_string}
use redis_agent.Text.Ends.{read_string-Tame}
use redis_agent.Intset.{int_string, read_member, read_int_members, read_intset}

read_member-Tame : (n : ℕ) → Tame (read_member n)
unfolding read_member
read_member-Tame n =
    bind-Tame (read_bytes (pos n)) _ (read_bytes-Tame (pos n)) (λ bs. pure-Tame (int_string n bs))

read_int_members-Tame : Tame read_int_members
unfolding read_int_members
read_int_members-Tame = bind-Tame read_uint32 _ read_uint32-Tame (λ n.
    bind-Tame read_uint32 _ read_uint32-Tame
      (λ size. repeat_read-Tame size (read_member n) (read_member-Tame n)))

pub read_intset-Tame : Tame read_intset
unfolding read_intset
read_intset-Tame =
    bind-Tame read_string _ read_string-Tame
      (λ inner. within-Tame read_int_members inner read_int_members-Tame)
