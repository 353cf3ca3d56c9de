-- ===== src/Objects/StreamObject/Groups.antt =====
-- The consumer groups of a stream as Redis writes them, and the commands that make them.
use redis_agent.Common.{
  ℕ, ◌^◌, ◌<◌, Bytes, List, [], ◌∷◌, ◌++◌, map, length, codes, ◌≡◌, refl, ◌∙◌, ap, arith, All,
}
use redis_agent.Reader.{ok, repeat_read}
use redis_agent.Reader.Laws.{bind_ok, repeat_read-put_all}
use redis_agent.Length.{read_length}
use redis_agent.Length.RoundTrip.{put_length, read_length-put_length}
use redis_agent.Length.Counted.{put_counted, rounds_of}
use redis_agent.Text.{read_string}
use redis_agent.Text.RoundTrip.{put_raw, read_string-put_raw}
use redis_agent.Objects.{RedisCmd}
use redis_agent.Objects.StreamObject.{
  concat, format_id, read_pending, fill, read_consumer, skip_group_offset, read_group,
}
use redis_agent.Objects.StreamObject.Consumers.{
  put_delivery, put_consumer, claims_of, read_consumer-put_consumer, delivered,
  read_pending-put_delivery, DeliveryFits, ConsumerFits, Delivery, Consumer,
}

-- The two formats: that of Redis 7 has an offset for each group.
pub data Format : Type 0 where
  listpacks listpacks2 : Format

abbrev pub type_of : Format → ℕ
type_of listpacks = 15
type_of listpacks2 = 19

abbrev pub put_offset : Format → ℕ → Bytes → Bytes
put_offset listpacks offset s = s
put_offset listpacks2 offset s = put_length offset s

skip_group_offset-put_offset :
    (f : Format) (offset : ℕ) (s : Bytes)
    → offset < 2 ^ 64
    → skip_group_offset (type_of f) (put_offset f offset s) ≡ ok (tt, s)
unfolding skip_group_offset
skip_group_offset-put_offset listpacks offset s h = refl
skip_group_offset-put_offset listpacks2 offset s h =
    bind_ok read_length _ _ (read_length-put_length offset s h)

pub record Group : Type 0 where
  pub name : Bytes
  pub last_ms : ℕ
  pub last_seq : ℕ
  pub offset : ℕ
  pub deliveries : List Delivery
  pub consumers : List Consumer

pub record GroupFits (g : Group) : Type 0 where
  pub name_short : length g.name < 2 ^ 63
  pub ms_fits : g.last_ms < 2 ^ 64
  pub seq_fits : g.last_seq < 2 ^ 64
  pub offset_fits : g.offset < 2 ^ 64
  pub few_deliveries : length g.deliveries < 2 ^ 63
  pub few_consumers : length g.consumers < 2 ^ 63
  pub deliveries_fit : All DeliveryFits g.deliveries
  pub consumers_fit : All ConsumerFits g.consumers

abbrev pub put_group : Format → Group → Bytes → Bytes
put_group f g s = put_raw g.name (
    put_length g.last_ms (
      put_length g.last_seq (
        put_offset f g.offset
          (put_counted put_delivery g.deliveries (put_counted put_consumer g.consumers s)))))

-- The commands of a list of things, one after the other.
abbrev pub all_commands : {A : Type 0} → (A → List RedisCmd) → List A → List RedisCmd
all_commands commands [] = []
all_commands commands (x ∷ xs) = commands x ++ all_commands commands xs

pub concat-map :
    {A : Type 0} (commands : A → List RedisCmd) (xs : List A)
    → concat (map commands xs) ≡ all_commands commands xs
unfolding concat
concat-map commands [] = refl
concat-map commands (x ∷ xs) = ap (λ cs. commands x ++ cs) (concat-map commands xs)

-- The command for the group, without the word `XGROUP`, and the claims of its consumers.
abbrev pub group_commands : Bytes → Group → List RedisCmd
group_commands key g =
    (codes "CREATE" ∷ key ∷ g.name ∷ format_id g.last_ms g.last_seq ∷ [])
    ∷ all_commands (claims_of key g.name g.deliveries) g.consumers

pub read_group-put_group :
    (key : Bytes) (f : Format) (g : Group) (s : Bytes)
    → GroupFits g
    → read_group key (type_of f) (put_group f g s) ≡ ok (group_commands key g, s)
unfolding read_group
read_group-put_group key f g s h =
    bind_ok read_string _ _ (read_string-put_raw g.name _ h.name_short)
    ∙ bind_ok read_length _ _ (read_length-put_length g.last_ms _ h.ms_fits)
    ∙ bind_ok read_length _ _ (read_length-put_length g.last_seq _ h.seq_fits)
    ∙ bind_ok (skip_group_offset (type_of f)) _ _
        (skip_group_offset-put_offset f g.offset _ h.offset_fits)
    ∙ bind_ok read_length _ _
        (read_length-put_length (length g.deliveries) _ (omega (arith, h.few_deliveries)))
    ∙ rw (rounds_of (length g.deliveries) h.few_deliveries) (
        bind_ok (repeat_read (length g.deliveries) read_pending) _ _ (
          repeat_read-put_all read_pending put_delivery delivered DeliveryFits
            read_pending-put_delivery g.deliveries _ h.deliveries_fit)
        ∙ bind_ok read_length _ _
            (read_length-put_length (length g.consumers) _ (omega (arith, h.few_consumers)))
        ∙ rw (rounds_of (length g.consumers) h.few_consumers) (
            bind_ok
              (repeat_read (length g.consumers)
                (read_consumer key g.name (fill (map delivered g.deliveries) [])))
              _ _
              (repeat_read-put_all (read_consumer key g.name (fill (map delivered g.deliveries) []))
                put_consumer (claims_of key g.name g.deliveries) ConsumerFits
                (read_consumer-put_consumer key g.name g.deliveries) g.consumers s h.consumers_fit)
            ∙ ap
                (λ cs.
                  ok
                    ((codes "CREATE" ∷ key ∷ g.name ∷ format_id g.last_ms g.last_seq ∷ []) ∷ cs, s))
                (concat-map (claims_of key g.name g.deliveries) g.consumers)))
