-- ===== src/Kv/Update.antt =====
-- kvdb_update and kvdb_lookup of p4/kvdb.c together: a map from keys to values.
use jitcompilation.Prelude.{
  ℕ, ◌+◌, ◌<◌, ◌≡◌, inl, inr, refl, ap, ◌∙◌, Bool, true, false, some, List, [], ◌++◌, length,
  length-append, take, min, leb, ◌==◌, Bool-cases, arith,
}
use jitcompilation.Index.Hash.{key_of}
use jitcompilation.Index.Table.{Index, answer, index_lookup, index_update}
use jitcompilation.Index.Reference.{offset_of}
use jitcompilation.Log.Device.{Call, gives}
use jitcompilation.Log.Store.{Outside}
use jitcompilation.Kv.Meta.{meta_len, meta_bytes, length-meta_bytes}
use jitcompilation.Kv.Raw.{new_meta}
use jitcompilation.Log.Writes.{SameSizes}
use jitcompilation.Kv.Records.{Storable, RoomFor}
use jitcompilation.Kv.Chain.{Entry, end_of, Roomy}
use jitcompilation.Kv.Keys.{key_eq, key_eq_self}
use jitcompilation.Kv.Db.{
  Kvdb, update, Reply, done_with, is_live, counted, found_reply, is_key, is_val, mutate,
  kvdb_update, kvdb_lookup,
}
use jitcompilation.Kv.State.{IsDb}
use jitcompilation.Kv.Contract.{Answered, kvdb_lookup-Answered}
use jitcompilation.Kv.Change.{put_entry, Changes, mutate-Changes, new_log}

-- An update that succeeds: the key has the value, and every other key what it had.
pub record Updated (outside : Outside) (malloc : Bool) (kvdb : Kvdb) (key val : List ℕ)
    : Type 0 where
  pub after : Kvdb
  pub ran : kvdb_update outside malloc true kvdb key val ≡ gives (done_with [] 0, after)
  pub stored :
      (val_room : ℕ)
      → (last : Kvdb) × (kvdb_lookup outside true after key (some val_room)
          ≡ gives (done_with (take (min (length val) val_room) val) (length val), last))
  pub others :
      (other : List ℕ) (val_room : ℕ)
      → is_key other ≡ true
      → key_eq key other ≡ false
      → (reply : Reply) × (now : Kvdb) × (then_ : Kvdb) × (kvdb_lookup outside true kvdb other
            (some val_room)
          ≡ gives (reply, then_))
        × (kvdb_lookup outside true after other (some val_room) ≡ gives (reply, now))

module _ (entries : ℕ → List Entry) (key val : List ℕ) (off : ℕ) where
  abbrev after_put : ℕ → List Entry
  after_put = put_entry (key_of key) (off, key, val) entries

  end_of-own :
      (val_room : ℕ)
      → 0 < off
      → 0 < length val
      → found_reply (end_of key val_room (after_put (key_of key)))
        ≡ done_with (take (min (length val) val_room) val) (length val)
  end_of-own val_room nonzero some_val =
      let own : (key_of key == key_of key) ≡ true = ground arith in
      let there : (off == 0) ≡ false = ground (arith, nonzero) in
      let live : (length val == 0) ≡ false = ground (arith, some_val) in
      rw own (rw (key_eq_self key) (rw (there, live) refl))

  end_of-other :
      (other : List ℕ) (room : ℕ)
      → key_eq key other ≡ false
      → end_of other room (after_put (key_of other)) ≡ end_of other room (entries (key_of other))
  end_of-other other room apart = elim (Bool-cases (key_of other == key_of key)) [
    | inl same ↦ rw same (rw apart refl)
    | inr differs ↦ rw differs refl
  ]

module _ (outside : Outside) (works : (n : ℕ) → outside.works n ≡ true) (kvdb : Kvdb) (log : List ℕ)
    (entries : ℕ → List Entry) (h : IsDb kvdb log entries) (key val : List ℕ)
    (some_bytes : 0 < length log) (some_val : 0 < length val)
    (ok : Storable kvdb.kvraw.logfs.device.block key val)
    (room : RoomFor kvdb.kvraw (length log + meta_len + length key + length val)) (malloc : Bool)
    {index : Index} {j : ℕ} (updated : index_update malloc kvdb.index key ≡ answer (index, j)) where
  is_key_ok : is_key key ≡ true
  is_key_ok =
      let some_key : (length key == 0) ≡ false = ground (arith, ok.some_key) in
      let short : leb (length key) 65535 ≡ true = ground (arith, ok.key_len) in
      rw (some_key, short) refl

  is_val_ok : is_val val ≡ true
  is_val_ok =
      let filled : (length val == 0) ≡ false = ground (arith, some_val) in
      let short : leb (length val) 4294967295 ≡ true = ground (arith, ok.val_len) in
      rw (filled, short) refl

  abbrev Done : Call (Reply × Kvdb) → Type 0
  Done ran =
      (after : Kvdb) × (ran ≡ gives (done_with [] 0, after))
      × IsDb after
          (new_log outside works kvdb log entries h key val (some (length val)) update some_bytes ok
            room)
          (put_entry (key_of key) (length log, key, val) entries)
      × SameSizes kvdb.kvraw.logfs after.kvraw.logfs

  always :
      (live : Bool) (ran : Call (Reply × Kvdb))
      → Changes outside works kvdb log entries h key val
          (some (length val))
          update
          some_bytes
          ok
          room
          (counted update live (kvdb.size, kvdb.waste))
          ran
      → Done ran
  always true ran c = (c.0, c.1, c.2, c.4)
  always false ran c = (c.0, c.1, c.2, c.4)

  stored_in : Done (mutate outside malloc true kvdb key val (some (length val)) update)
  stored_in =
      always (is_live (end_of key 0 (entries (key_of key))))
        (mutate outside malloc true kvdb key val (some (length val)) update)
        (mutate-Changes outside works kvdb log entries h key val (some (length val)) update
          some_bytes ok room malloc updated)

  abbrev grown : List ℕ
  grown =
      new_log outside works kvdb log entries h key val (some (length val)) update some_bytes ok room

  grown_size : length grown ≡ length log + meta_len + length key + length val
  grown_size =
      let header = new_meta key val (offset_of (index_lookup kvdb.index key)) in
      omega (
        arith,
        length-meta_bytes header,
        length-append key val,
        length-append (meta_bytes header) (key ++ val),
        length-append log (meta_bytes header ++ (key ++ val)),
      )

  room_before : Roomy kvdb.kvraw log
  room_before = (omega (arith, room), omega (arith, room))

  room_after : Roomy stored_in.0.kvraw grown
  room_after =
      let same = stored_in.3 in
      (
        omega (arith, room, grown_size, same.same_block, same.same_device),
        omega (arith, room, same.same_device),
      )

  abbrev lists : ℕ → List Entry
  lists = put_entry (key_of key) (length log, key, val) entries

  answered :
      (other : List ℕ) (val_room : ℕ)
      → is_key other ≡ true
      → Answered outside stored_in.0 grown lists other val_room
  answered other val_room named =
      kvdb_lookup-Answered outside works stored_in.0 grown lists stored_in.2 room_after other
        val_room named

  -- In a database in order, where the index has room for the key, with a block of the device free
  -- behind the new record, a device that works, and memory, kvdb_update of a key and a value that a
  -- block holds succeeds; kvdb_lookup then returns the value for the key, cut to the length passed in,
  -- and for every other key what it returned before.
  pub kvdb_update-Updated : Updated outside malloc kvdb key val
  unfolding kvdb_update
  kvdb_update-Updated = record {
    after = stored_in.0;
    ran = rw (is_key_ok, is_val_ok) stored_in.1;
    stored = λ val_room.
        let found = answered key val_room is_key_ok in
        (
          found.after,
          found.ran
              ∙ ap (λ reply. gives (reply, found.after))
                  (end_of-own entries key val (length log) val_room some_bytes some_val),
        );
    others = λ other val_room named apart.
        let before =
          kvdb_lookup-Answered outside works kvdb log entries h room_before other val_room named in
        let now = answered other val_room named in
        (
          found_reply (end_of other val_room (entries (key_of other))),
          now.after,
          before.after,
          before.ran,
          now.ran
              ∙ ap (λ end. gives (found_reply end, now.after))
                  (end_of-other entries key val (length log) other val_room apart),
        );
  }
