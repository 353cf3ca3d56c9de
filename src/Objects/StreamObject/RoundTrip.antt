-- ===== src/Objects/StreamObject/RoundTrip.antt =====
-- Whole streams as Redis writes them, and the commands that rebuild them.
use redis_agent.Common.{
  ℕ, ◌^◌, ◌<◌, Bytes, List, [], ◌∷◌, ◌++◌, length, codes, ◌≡◌, refl, ◌∙◌, ap, arith, All,
}
use redis_agent.Common.Int.{pos, signed}
use redis_agent.Reader.{ok, repeat_read}
use redis_agent.Reader.Laws.{bind_ok, repeat_read-put_all}
use redis_agent.Length.{read_length}
use redis_agent.Length.RoundTrip.{put_length, read_length-put_length}
use redis_agent.Length.Counted.{put_counted, int_of_small, rounds_of}
use redis_agent.Text.{read_string}
use redis_agent.Text.RoundTrip.{put_raw, read_string-put_raw}
use redis_agent.Listpack.{read_listpack}
use redis_agent.Listpack.RoundTrip as Pack
use redis_agent.Objects.{RedisCmd}
use redis_agent.Objects.StreamEntries.Replay as Entries
use redis_agent.Objects.StreamObject.{
  format_id, check_id, commands_of, master_commands, read_stream_node, skip_offsets, closing,
  read_group, read_stream, load_from_buffer,
}
use redis_agent.Objects.StreamObject.Consumers.{EntryId, EntryIdFits, put_id, be_value-be_bytes}
use redis_agent.Objects.StreamObject.Groups.{
  Format, listpacks, listpacks2, type_of, Group, GroupFits, put_group, all_commands, concat-map,
  group_commands, read_group-put_group,
}

-- A listpack of entries under the id that theirs are counted from.
pub record Node : Type 0 where
  pub id : EntryId
  pub fields : List Bytes
  pub items : List Entries.Item
  pub total : ℕ
  pub stored : List Pack.Stored

pub record NodeFits (n : Node) : Type 0 where
  pub id_fits : EntryIdFits n.id
  pub few_fields : length n.fields < 2 ^ 62
  pub few_items : length n.items < 2 ^ 62
  pub items_fit : All (Entries.ItemFits n.fields) n.items
  pub total_fits : n.total < 2 ^ 32
  pub few_stored : length n.stored < 2 ^ 16
  pub stored_fit : All Pack.StoredFits n.stored
  pub short : length (Pack.put_listpack n.total n.stored) < 2 ^ 63
  pub elements : Pack.meanings n.stored ≡ Entries.put_listpack_elements n.fields n.items []

abbrev pub put_node : Node → Bytes → Bytes
put_node n s = put_raw (put_id n.id []) (put_raw (Pack.put_listpack n.total n.stored) s)

abbrev pub node_commands : Bytes → Node → List RedisCmd
node_commands key n =
    Entries.live_commands key
      (record { master_ms = signed 64 n.id.0; master_seq = signed 64 n.id.1; fields = n.fields })
      n.items

check_id-put_id : (i : EntryId) (s : Bytes) → check_id (put_id i []) s ≡ ok (tt, s)
unfolding check_id
check_id-put_id (ms, seq) s = refl

master_commands-node :
    (key : Bytes) (n : Node)
    → NodeFits n
    → master_commands key (put_id n.id []) (Pack.meanings n.stored) ≡ ok (node_commands key n)
master_commands-node key n h =
    let (hm, hs) = h.id_fits in
    rw (h.elements, be_value-be_bytes n.id.0 hm, be_value-be_bytes n.id.1 hs)
      (ap commands_of (
        Entries.read_elements-put_listpack_elements key (signed 64 n.id.0) (signed 64 n.id.1)
          n.fields n.items [] h.few_fields h.few_items h.items_fit))

read_stream_node-put_node :
    (key : Bytes) (n : Node) (s : Bytes)
    → NodeFits n
    → read_stream_node key (put_node n s) ≡ ok (node_commands key n, s)
unfolding read_stream_node
read_stream_node-put_node key n s h =
    bind_ok read_string _ _ (read_string-put_raw (put_id n.id []) _ (omega arith))
    ∙ bind_ok (check_id (put_id n.id [])) _ _ (check_id-put_id n.id _)
    ∙ bind_ok read_listpack _ _ (
        Pack.read_listpack-put_listpack n.total n.stored s h.total_fits h.few_stored h.stored_fit
          h.short)
    ∙ rw (master_commands-node key n h) refl

-- The five numbers that only the format of Redis 7 has.
pub record Offsets : Type 0 where
  pub first_ms : ℕ
  pub first_seq : ℕ
  pub deleted_ms : ℕ
  pub deleted_seq : ℕ
  pub added : ℕ

pub record OffsetsFit (o : Offsets) : Type 0 where
  pub first_ms_fits : o.first_ms < 2 ^ 64
  pub first_seq_fits : o.first_seq < 2 ^ 64
  pub deleted_ms_fits : o.deleted_ms < 2 ^ 64
  pub deleted_seq_fits : o.deleted_seq < 2 ^ 64
  pub added_fits : o.added < 2 ^ 64

abbrev pub put_offsets : Format → Offsets → Bytes → Bytes
put_offsets listpacks o s = s
put_offsets listpacks2 o s = put_length o.first_ms (
    put_length o.first_seq
      (put_length o.deleted_ms (put_length o.deleted_seq (put_length o.added s))))

skip_offsets-put_offsets :
    (f : Format) (o : Offsets) (s : Bytes)
    → OffsetsFit o
    → skip_offsets (type_of f) (put_offsets f o s) ≡ ok (tt, s)
unfolding skip_offsets
skip_offsets-put_offsets listpacks o s h = refl
skip_offsets-put_offsets listpacks2 o s h =
    bind_ok read_length _ _ (read_length-put_length o.first_ms _ h.first_ms_fits)
    ∙ bind_ok read_length _ _ (read_length-put_length o.first_seq _ h.first_seq_fits)
    ∙ bind_ok read_length _ _ (read_length-put_length o.deleted_ms _ h.deleted_ms_fits)
    ∙ bind_ok read_length _ _ (read_length-put_length o.deleted_seq _ h.deleted_seq_fits)
    ∙ bind_ok read_length _ _ (read_length-put_length o.added s h.added_fits)

pub record Stream : Type 0 where
  pub nodes : List Node
  pub count : ℕ
  pub last_ms : ℕ
  pub last_seq : ℕ
  pub offsets : Offsets
  pub groups : List Group

pub record StreamFits (st : Stream) : Type 0 where
  pub few_nodes : length st.nodes < 2 ^ 63
  pub nodes_fit : All NodeFits st.nodes
  pub count_fits : st.count < 2 ^ 64
  pub ms_fits : st.last_ms < 2 ^ 64
  pub seq_fits : st.last_seq < 2 ^ 64
  pub offsets_fit : OffsetsFit st.offsets
  pub few_groups : length st.groups < 2 ^ 63
  pub groups_fit : All GroupFits st.groups

abbrev pub put_stream : Format → Stream → Bytes → Bytes
put_stream f st s = put_counted put_node st.nodes (
    put_length st.count (
      put_length st.last_ms (
        put_length st.last_seq (put_offsets f st.offsets (put_counted (put_group f) st.groups s)))))

-- The last id is set at the end; a stream without listpacks is made by an entry that is dropped at
-- once.
abbrev pub set_last : Bytes → List Node → Bytes → List RedisCmd
set_last key [] id =
    (codes "xadd" ∷ key ∷ codes "MAXLEN" ∷ codes "0" ∷ id ∷ codes "x" ∷ codes "y" ∷ [])
    ∷ (codes "xsetid" ∷ key ∷ id ∷ [])
    ∷ []
set_last key (n ∷ ns) id = (codes "xsetid" ∷ key ∷ id ∷ []) ∷ []

closing-set_last :
    (key : Bytes) (ns : List Node) (id : Bytes)
    → closing key (pos (length ns)) id ≡ set_last key ns id
closing-set_last key [] id = refl
closing-set_last key (n ∷ ns) id = ground arith

-- The entries of the nodes in order, then the last id, then the groups.
abbrev pub stream_commands : Bytes → Stream → List RedisCmd
stream_commands key st =
    all_commands (node_commands key) st.nodes
    ++ (set_last key st.nodes (format_id st.last_ms st.last_seq)
        ++ all_commands (group_commands key) st.groups)

read_stream-put_stream :
    (key : Bytes) (f : Format) (st : Stream) (s : Bytes)
    → StreamFits st
    → read_stream key (type_of f) (put_stream f st s) ≡ ok (stream_commands key st, s)
unfolding read_stream
read_stream-put_stream key f st s h =
    bind_ok read_length _ _
      (read_length-put_length (length st.nodes) _ (omega (arith, h.few_nodes)))
    ∙ rw (int_of_small (length st.nodes) h.few_nodes) (
        bind_ok (repeat_read (length st.nodes) (read_stream_node key)) _ _ (
          repeat_read-put_all (read_stream_node key) put_node (node_commands key) NodeFits
            (read_stream_node-put_node key) st.nodes _ h.nodes_fit)
        ∙ bind_ok read_length _ _ (read_length-put_length st.count _ h.count_fits)
        ∙ bind_ok read_length _ _ (read_length-put_length st.last_ms _ h.ms_fits)
        ∙ bind_ok read_length _ _ (read_length-put_length st.last_seq _ h.seq_fits)
        ∙ bind_ok (skip_offsets (type_of f)) _ _
            (skip_offsets-put_offsets f st.offsets _ h.offsets_fit)
        ∙ bind_ok read_length _ _
            (read_length-put_length (length st.groups) _ (omega (arith, h.few_groups)))
        ∙ rw (rounds_of (length st.groups) h.few_groups) (
            bind_ok (repeat_read (length st.groups) (read_group key (type_of f))) _ _ (
              repeat_read-put_all (read_group key (type_of f)) (put_group f) (group_commands key)
                GroupFits (read_group-put_group key f) st.groups s h.groups_fit)
            ∙ rw
                (
                  concat-map (node_commands key) st.nodes,
                  concat-map (group_commands key) st.groups,
                  closing-set_last key st.nodes (format_id st.last_ms st.last_seq),
                )
                refl))

pub load_from_buffer-put_stream :
    (key : Bytes) (f : Format) (st : Stream) (s : Bytes)
    → StreamFits st
    → load_from_buffer key (type_of f) (put_stream f st s)
      ≡ ok (record { key = key; cmds = stream_commands key st }, s)
unfolding load_from_buffer
load_from_buffer-put_stream key listpacks st s h =
    bind_ok (read_stream key 15) _ _ (read_stream-put_stream key listpacks st s h)
load_from_buffer-put_stream key listpacks2 st s h =
    bind_ok (read_stream key 19) _ _ (read_stream-put_stream key listpacks2 st s h)
