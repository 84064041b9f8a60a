-- ===== src/Kv/Restore.antt =====
-- kvdb_open and kvdb_open_with_restore of p4/kvdb.c: the database is made new, or its index and its
-- counters are rebuilt from the records in the log.
use jitcompilation.Prelude.Bytes.{add_size, sub_size}
use jitcompilation.Prelude.{
  ℕ, zero, suc, Bool, true, false, Option, none, some, List, ◌==◌, if◌then◌else◌,
}
use jitcompilation.Index.Table.{
  Index, Answer, answer, failure, exit, assign, index_open, index_update,
}
use jitcompilation.Log.Device.{Call, stops, fails, hangs, gives, bind_call, Stat}
use jitcompilation.Log.Store.{Outside}
use jitcompilation.Kv.Raw.{Kvraw, Visitor, kvraw_open, kvraw_visitor_init, kvraw_visitor_next}
use jitcompilation.Kv.Db.{Kvdb, deref}

-- The counters after a record: a removal, a new value of a key in use, or a key not in use.
abbrev pub counted_record : Kvdb → ℕ → ℕ → Kvdb
counted_record kvdb zero old = record kvdb {
  size = sub_size kvdb.size 1;
  waste = add_size kvdb.waste 1;
}
counted_record kvdb (suc val_len) zero = record kvdb { size = add_size kvdb.size 1 }
counted_record kvdb (suc val_len) (suc old) = record kvdb { waste = add_size kvdb.waste 1 }

-- The offset that the index keeps: none of a removal.
abbrev pub kept_offset : Visitor → ℕ
kept_offset v = if v.val_len == 0 then 0 else v.offset

-- NULL from index_update is read through.
abbrev pub restored : Kvdb → Visitor → Answer (Index × ℕ) → Call Kvdb
restored kvdb v failure = stops
restored kvdb v exit = stops
restored kvdb v (answer (index, j)) =
    gives (record (counted_record kvdb v.val_len (deref index j)) {
      index = assign index j (kept_offset v);
    })

module _ (outside : Outside) (malloc : Bool) where
  abbrev pub restore_one : Kvdb → Visitor → Call Kvdb
  restore_one kvdb v = restored kvdb v (index_update malloc kvdb.index v.key)

  -- The loop over the records that are valid.
  unfoldable pub restore_loop : ℕ → Kvdb → Visitor → Call Kvdb
  restore_loop zero kvdb v = if v.valid then hangs else gives kvdb
  restore_loop (suc rounds) kvdb v =
      let round = bind_call (restore_one kvdb v) (λ kvdb'.
        bind_call (kvraw_visitor_next outside kvdb'.kvraw v)
          (λ next. restore_loop rounds (record kvdb' { kvraw = next.1 }) next.0)) in
      if v.valid then round else gives kvdb

  -- A round goes on by a header or more, and a read behind the device ends the program.
  abbrev pub restore_all : Kvdb → Call Kvdb
  restore_all kvdb = bind_call (kvraw_visitor_init outside kvdb.kvraw) (λ first.
      restore_loop (suc kvdb.kvraw.logfs.device.size) (record kvdb { kvraw = first.1 }) first.0)

  abbrev pub with_index : Bool → Kvraw → Option Index → Call Kvdb
  with_index restore kvraw none = fails
  with_index false kvraw (some index) =
      gives (record { size = 0; waste = 0; kvraw = kvraw; index = index })
  with_index true kvraw (some index) =
      restore_all (record { size = 0; waste = 0; kvraw = kvraw; index = index })

  -- `fresh` says whether the n-th allocation succeeds, `index_fresh` that of the index.
  unfoldable pub kvdb_open_internal :
      (ℕ → Bool) → Bool → Bool → List ℕ → Option Stat → Bool → Call Kvdb
  kvdb_open_internal fresh index_fresh opens bytes stat restore =
      if fresh 0
      then bind_call (kvraw_open outside (λ n. fresh (suc n)) opens bytes stat restore)
          (λ kvraw. with_index restore kvraw (index_open index_fresh))
      else fails

  unfoldable pub kvdb_open : (ℕ → Bool) → Bool → Bool → List ℕ → Option Stat → Call Kvdb
  kvdb_open fresh index_fresh opens bytes stat =
      kvdb_open_internal fresh index_fresh opens bytes stat false

  unfoldable pub kvdb_open_with_restore :
      (ℕ → Bool) → Bool → Bool → List ℕ → Option Stat → Call Kvdb
  kvdb_open_with_restore fresh index_fresh opens bytes stat =
      kvdb_open_internal fresh index_fresh opens bytes stat true
