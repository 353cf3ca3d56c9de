-- ===== src/Tests/Stream.antt =====
-- Whole streams: the theorems at a stream with one entry and one group.
use redis_agent.Common.{ℕ, [], ◌∷◌, codes, map, false}
use redis_agent.Common.Int.{pos}
use redis_agent.Listpack.Entry.{str6}
use redis_agent.Listpack.RoundTrip.{Stored}
use redis_agent.Objects.StreamEntries.Replay as Entries
use redis_agent.Objects.StreamObject.Groups.{Group}
use redis_agent.Objects.StreamObject.RoundTrip.{Node, Stream}

-- One character each.
abbrev short_text : ℕ → Stored
short_text c = (str6 (c ∷ []), 2 ∷ [])

-- The entry 5-1 with the field "f" and the value "x", counted from the id 4-1.
abbrev entries : Node
entries = record {
  id = (4, 1);
  fields = codes "f" ∷ [];
  items =
      record {
        removed = false;
        ms = pos 1;
        seq = pos 0;
        body = Entries.shared (codes "x" ∷ []);
        lp_count = codes "4";
      }
      ∷ [];
  total = 37;
  stored = map short_text (codes "101f0210x4");
}

-- The entry waits for the consumer "c", after two deliveries.
abbrev group : Group
group = record {
  name = codes "g";
  last_ms = 5;
  last_seq = 1;
  offset = 1;
  deliveries = record { id = (5, 1); time = 900; count = 2 } ∷ [];
  consumers = record { name = codes "c"; seen = 950; waiting = (5, 1) ∷ [] } ∷ [];
}

abbrev stream : Stream
stream = record {
  nodes = entries ∷ [];
  count = 1;
  last_ms = 5;
  last_seq = 1;
  offsets = record { first_ms = 5; first_seq = 1; deleted_ms = 0; deleted_seq = 0; added = 1 };
  groups = group ∷ [];
}
