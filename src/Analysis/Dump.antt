-- ===== src/Analysis/Dump.antt =====
-- How `dumpRdb` and `Statistic` end on the server's replies.
use redis_agent.Common.{
  ◌⊎◌, inl, inr, Bool, Bool-cases, true, false, if◌then◌else◌, Bytes, List, [], ◌∷◌, codes,
  same_bytes, Option, none, some, ◌≡◌, ◌≢◌, refl, All,
}
use redis_agent.Info.{parse_info_prop}
use redis_agent.Info.Laws.{Line, put_lines, LineFits, first_value, parse_info_prop-put_lines}
use redis_agent.Loader.{Entry}
use redis_agent.Analysis.{
  Users, FloatShare, expire_key_rehash_overhead, key_rehash_overhead, add_entries, DumpEnd, dumped,
  waiting, replication_failed, is_master, bgsave_failed, persistence_failed, status_not_ok,
  check_status, await_bgsave, dump_rdb, statistic_after, statistic,
}

-- A reply to `INFO Persistence` while the dump is written.
abbrev pub InProgress : List Line → Type 0
InProgress ps =
    All LineFits ps
    × (same_bytes (first_value (codes "rdb_bgsave_in_progress") ps) (codes "0") ≡ false)

abbrev pub polls_then : List (List Line) → List Line → List (Option Bytes)
polls_then [] last = some (put_lines last) ∷ []
polls_then (ps ∷ pss) last = some (put_lines ps) ∷ polls_then pss last

await_bgsave-polls :
    (pss : List (List Line)) (last : List Line)
    → All InProgress pss
    → All LineFits last
    → first_value (codes "rdb_bgsave_in_progress") last ≡ codes "0"
    → await_bgsave (polls_then pss last) ≡ (
        if same_bytes (first_value (codes "rdb_last_bgsave_status") last) (codes "ok")
        then dumped
        else status_not_ok)
unfolding await_bgsave check_status
await_bgsave-polls [] last hs h e =
    rw
      (
        parse_info_prop-put_lines (codes "rdb_bgsave_in_progress") last h,
        e,
        parse_info_prop-put_lines (codes "rdb_last_bgsave_status") last h,
      )
      refl
await_bgsave-polls (ps ∷ pss) last ((hp, busy), hs) h e =
    rw (parse_info_prop-put_lines (codes "rdb_bgsave_in_progress") ps hp, busy)
      (await_bgsave-polls pss last hs h e)

-- On a server that is no master and starts the dump, with replies made of headings, empty lines
-- and lines `name:value`: however
-- often the poll finds the dump in progress, `dumpRdb` ends with the first reply that says it is
-- over, and without an error just when that reply has the status ok.
pub dump_rdb-polls :
    (role : List Line) (pss : List (List Line)) (last : List Line)
    → All LineFits role
    → same_bytes (first_value (codes "role") role) (codes "master") ≡ false
    → All InProgress pss
    → All LineFits last
    → first_value (codes "rdb_bgsave_in_progress") last ≡ codes "0"
    → dump_rdb (some (put_lines role)) true (polls_then pss last) ≡ (
        if same_bytes (first_value (codes "rdb_last_bgsave_status") last) (codes "ok")
        then dumped
        else status_not_ok)
unfolding dump_rdb
dump_rdb-polls role pss last hr replica hs h e =
    rw (parse_info_prop-put_lines (codes "role") role hr, replica)
      (await_bgsave-polls pss last hs h e)

-- The replies to the polls until the dump is over: any number that say it is in progress, then one
-- that says it is not, with the status ok.
pub data EndedWell : List (Option Bytes) → Type 0 where
  over :
      (info : Bytes) (later : List (Option Bytes))
      → same_bytes (parse_info_prop info (codes "rdb_bgsave_in_progress")) (codes "0") ≡ true
      → same_bytes (parse_info_prop info (codes "rdb_last_bgsave_status")) (codes "ok") ≡ true
      → EndedWell (some info ∷ later)
  busy :
      (info : Bytes) (later : List (Option Bytes))
      → same_bytes (parse_info_prop info (codes "rdb_bgsave_in_progress")) (codes "0") ≡ false
      → EndedWell later
      → EndedWell (some info ∷ later)

ok_status : (b : Bool) → (if b then dumped else status_not_ok) ≡ dumped → b ≡ true
ok_status true e = refl
ok_status false e = absurd (cc)

await_bgsave-EndedWell :
    (replies : List (Option Bytes)) → await_bgsave replies ≡ dumped → EndedWell replies
unfolding await_bgsave check_status
await_bgsave-EndedWell [] e = absurd (cc)
await_bgsave-EndedWell (none ∷ replies) e = absurd (cc)
await_bgsave-EndedWell (some info ∷ replies) e =
    elim (Bool-cases
      (same_bytes (parse_info_prop info (codes "rdb_bgsave_in_progress")) (codes "0"))) [
        | inl done ↦ over info replies done (ok_status _ (rw done at e))
        | inr more ↦ busy info replies more (await_bgsave-EndedWell replies (rw more at e))
      ]

refused :
    (b : Bool) (started : Bool) (r : DumpEnd)
    → (if b then is_master else if started then r else bgsave_failed) ≡ dumped
    → (b ≡ false) × (started ≡ true) × (r ≡ dumped)
refused true started r e = absurd (cc)
refused false true r e = (refl, refl, e)
refused false false r e = absurd (cc)

dumped_only :
    (info : Option Bytes) (started : Bool) (replies : List (Option Bytes))
    → dump_rdb info started replies ≡ dumped
    → (text : Bytes) × (info ≡ some text)
      × (same_bytes (parse_info_prop text (codes "role")) (codes "master") ≡ false)
      × (started ≡ true)
      × EndedWell replies
unfolding dump_rdb
dumped_only none started replies e = absurd (cc)
dumped_only (some text) started replies e =
    let (replica, begun, ended) =
      refused (same_bytes (parse_info_prop text (codes "role")) (codes "master")) started
        (await_bgsave replies) e in
    (text, refl, replica, begun, await_bgsave-EndedWell replies ended)

-- The table after an analysis of the entries.
abbrev pub analysed : FloatShare → List Entry → Users
analysed ops es = expire_key_rehash_overhead ops (key_rehash_overhead ops (add_entries es []))

statistic_after_lem :
    (ops : FloatShare) (d : DumpEnd) (es : List Entry) (old : Users)
    → ((d ≡ dumped) × (statistic_after ops d es old ≡ (analysed ops es, dumped)))
      ⊎ ((d ≢ dumped) × (statistic_after ops d es old ≡ (old, d)))
statistic_after_lem ops dumped es old = inl (refl, refl)
statistic_after_lem ops waiting es old = inr (λ e. cc, refl)
statistic_after_lem ops replication_failed es old = inr (λ e. cc, refl)
statistic_after_lem ops is_master es old = inr (λ e. cc, refl)
statistic_after_lem ops bgsave_failed es old = inr (λ e. cc, refl)
statistic_after_lem ops persistence_failed es old = inr (λ e. cc, refl)
statistic_after_lem ops status_not_ok es old = inr (λ e. cc, refl)

-- `Statistic` either puts the analysis of the entries in the place of the table of the users, and
-- then the server gave its role and is no master, it has started a dump, and its replies to the
-- polls said that the dump was in progress until one said that it was over with the status ok; or it
-- ends as `dumpRdb` does, otherwise than by success, and leaves the table as it was.
pub statistic_guard :
    (ops : FloatShare) (info : Option Bytes) (started : Bool) (replies : List (Option Bytes))
    (es : List Entry) (old : Users)
    → ((statistic ops info started replies es old ≡ (analysed ops es, dumped))
        × (text : Bytes) × (info ≡ some text)
        × (same_bytes (parse_info_prop text (codes "role")) (codes "master") ≡ false)
        × (started ≡ true)
        × EndedWell replies)
      ⊎ ((dump_rdb info started replies ≢ dumped)
          × (statistic ops info started replies es old ≡ (old, dump_rdb info started replies)))
unfolding statistic
statistic_guard ops info started replies es old =
    elim (statistic_after_lem ops (dump_rdb info started replies) es old) [
      | inl (e, same) ↦
          let (text, found, replica, begun, ended) = dumped_only info started replies e in
          inl (same, text, found, replica, begun, ended)
      | inr (h, same) ↦ inr (h, same)
    ]
