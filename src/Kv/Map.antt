-- ===== src/Kv/Map.antt =====
-- kvdb_lookup and the four changes of p4/kvdb.c against a map from keys to values.
use jitcompilation.Prelude.{
  ℕ, ◌+◌, ◌%◌, ◌^◌, ◌<◌, ◌≡◌, refl, sym, ap, ◌∙◌, Bool, true, false, Option, none, some, List, [],
  ◌∷◌, ◌++◌, length, take, min, ◌==◌, if◌then◌else◌, Bool-cases, inl, inr, arith,
}
use jitcompilation.Index.Hash.{key_of}
use jitcompilation.Index.Table.{Index, index_lookup}
use jitcompilation.Index.Reference.{offset_of}
use jitcompilation.Log.Device.{Call, gives}
use jitcompilation.Log.Store.{Outside}
use jitcompilation.Kv.Meta.{meta_len}
use jitcompilation.Kv.Records.{Storable, RoomFor, record_bytes}
use jitcompilation.Kv.Chain.{Entry, Chain, bottom, link, end_of, Roomy}
use jitcompilation.Kv.Keys.{key_eq}
use jitcompilation.Kv.Db.{
  Kvdb, ChainEnd, Mode, remove, insert, update, replace, Reply, done_with, is_live, counted,
  appended, asked, found_reply, reply_of, is_key, kvdb_lookup,
}
use jitcompilation.Kv.State.{IsDb}
use jitcompilation.Kv.Contract.{kvdb_lookup-Answered}
use jitcompilation.Kv.Change.{put_entry, Changes}

-- What a key has, by its records, the newest first: the value of the newest one, and nothing where there
-- is none or its value is empty.
abbrev pub kept : List ℕ → Option (List ℕ)
kept [] = none
kept (b ∷ bs) = some (b ∷ bs)

abbrev pub newest : List ℕ → List Entry → Option (List ℕ)
newest key [] = none
newest key ((off, k, v) ∷ entries) = if key_eq k key then kept v else newest key entries

-- What a caller with room for so many bytes is told.
abbrev pub told : ℕ → Option (List ℕ) → Reply
told val_room none = record { status = 1; val = []; val_len = 0 }
told val_room (some v) = record {
  status = 0;
  val = take (min (length v) val_room) v;
  val_len = length v;
}

abbrev pub has_value : Option (List ℕ) → Bool
has_value none = false
has_value (some v) = true

end_of-told :
    {log : List ℕ} {off : ℕ} {entries : List Entry} (key : List ℕ) (val_room : ℕ)
    → Chain log off entries
    → (is_live (end_of key val_room entries) ≡ has_value (newest key entries))
      × (found_reply (end_of key val_room entries) ≡ told val_room (newest key entries))
end_of-told key val_room bottom = (refl, refl)
end_of-told key val_room (link {off} {prev} {key = k} {val = []} {entries} falls s rest) =
    let there : (off == 0) ≡ false = ground (arith, falls) in
    elim (Bool-cases (key_eq k key)) [
      | inl same ↦ rw (same, there) (refl, refl)
      | inr other ↦ rw other (end_of-told key val_room rest)
    ]
end_of-told key val_room (link {off} {prev} {key = k} {val = b ∷ bs} {entries} falls s rest) =
    let there : (off == 0) ≡ false = ground (arith, falls) in
    let filled : (length (b ∷ bs) == 0) ≡ false = ground arith in
    elim (Bool-cases (key_eq k key)) [
      | inl same ↦ rw (same, there, filled) (refl, refl)
      | inr other ↦ rw other (end_of-told key val_room rest)
    ]

-- A search that tells what the key has, and leaves the records as they are.
pub record Tells (outside : Outside) (kvdb : Kvdb) (log : List ℕ) (entries : ℕ → List Entry)
    (key : List ℕ) (val_room : ℕ) : Type 0 where
  pub after : Kvdb
  pub ran :
      kvdb_lookup outside true kvdb key (some val_room)
      ≡ gives (told val_room (newest key (entries (key_of key))), after)
  pub is_db : IsDb after log entries

-- In a database in order, with a block of the device free, a device that works, and memory,
-- kvdb_lookup of a key of 1 to 0xffff bytes with a place for the length returns 0 with the value of the
-- newest record of the key, cut to the length passed in, and its length; or +1, if the key has no
-- record or the newest one has no value, as a removal has none. The database stays in order.
pub kvdb_lookup-Tells :
    (outside : Outside)
    → ((n : ℕ) → outside.works n ≡ true)
    → (kvdb : Kvdb) (log : List ℕ) (entries : ℕ → List Entry) → IsDb kvdb log entries
    → Roomy kvdb.kvraw log
    → (key : List ℕ) (val_room : ℕ) → is_key key ≡ true
    → Tells outside kvdb log entries key val_room
kvdb_lookup-Tells outside works kvdb log entries h room key val_room named =
    let found = kvdb_lookup-Answered outside works kvdb log entries h room key val_room named in
    record {
      after = found.after;
      ran =
          found.ran
          ∙ ap (λ reply. gives (reply, found.after)) (end_of-told key val_room (h.chains key)).1;
      is_db = found.is_db;
    }

-- A change, by what the key had: which ones are refused, the value that is written, and the answer.
abbrev pub is_refused : Mode → Option (List ℕ) → Bool
is_refused insert (some v) = true
is_refused remove none = true
is_refused replace none = true
is_refused _ _ = false

abbrev pub written : Mode → List ℕ → List ℕ
written remove val = []
written insert val = val
written update val = val
written replace val = val

abbrev pub handed : Mode → Option ℕ → Option (List ℕ) → Reply
handed remove (some val_room) old = told val_room old
handed _ _ _ = record { status = 0; val = []; val_len = 0 }

-- The keys in the map, 0 or 1, before and after a change.
abbrev pub before_it : Option (List ℕ) → ℕ
before_it none = 0
before_it (some v) = 1

abbrev pub after_it : Mode → ℕ
after_it remove = 0
after_it _ = 1

module _ (kvdb : Kvdb) (log : List ℕ) (entries : ℕ → List Entry) (key val : List ℕ)
    (val_room : Option ℕ) (mode : Mode) where
  -- `old` is what the key had.
  abbrev pub Settles : Option (List ℕ) → Bool → Call (Reply × Kvdb) → Type 0
  Settles old true ran =
      (after : Kvdb) × (ran ≡ gives ((record { status = 1; val = []; val_len = 0 }), after))
      × IsDb after log entries
      × ((after.size ≡ kvdb.size) × (after.waste ≡ kvdb.waste))
  Settles old false ran =
      (after : Kvdb) × (ran ≡ gives (handed mode val_room old, after))
      × IsDb after
          (log ++ record_bytes key (written mode val) (offset_of (index_lookup kvdb.index key)))
          (put_entry (key_of key) (length log, key, written mode val) entries)
      × (((after.size + before_it old) % 2 ^ 64 ≡ (kvdb.size + after_it mode) % 2 ^ 64)
          × (after.waste % 2 ^ 64 ≡ (kvdb.waste + before_it old) % 2 ^ 64))

  abbrev pub Mutates : Call (Reply × Kvdb) → Type 0
  Mutates ran =
      Settles (newest key (entries (key_of key)))
        (is_refused mode (newest key (entries (key_of key)))) ran

-- The reply to a removal, where the search found a value.
removed_reply :
    (val_room : Option ℕ) (end : ChainEnd) (old : Option (List ℕ))
    → is_live end ≡ true
    → found_reply end ≡ told (asked remove val_room) old
    → reply_of remove val_room end ≡ handed remove val_room old
removed_reply none end old live same = refl
removed_reply (some val_room) end old live same =
    let found : done_with end.val end.val_len ≡ found_reply end = sym (rw live refl) in found ∙ same

module _ (outside : Outside) (works : (n : ℕ) → outside.works n ≡ true) (kvdb : Kvdb) (log : List ℕ)
    (entries : ℕ → List Entry) (h : IsDb kvdb log entries) (key val : List ℕ) (val_room : Option ℕ)
    (some_bytes : 0 < length log) where
  abbrev ended : Mode → ChainEnd
  ended mode = end_of key (asked mode val_room) (entries (key_of key))

  settle :
      (mode : Mode) (ok : Storable kvdb.kvraw.logfs.device.block key (appended mode val))
      (room : RoomFor kvdb.kvraw (length log + meta_len + length key + length (appended mode val)))
      (old : Option (List ℕ)) (ran : Call (Reply × Kvdb))
      → (is_live (ended mode) ≡ has_value old)
        × (found_reply (ended mode) ≡ told (asked mode val_room) old)
      → Changes outside works kvdb log entries h key val val_room mode some_bytes ok room
          (counted mode (has_value old) (kvdb.size, kvdb.waste))
          ran
      → Settles kvdb log entries key val val_room mode old (is_refused mode old) ran
  settle remove ok room none ran t c = (c.0, c.1, c.2, c.3)
  settle remove ok room (some v) ran t c = (
    c.0,
    c.1 ∙ ap (λ r. gives (r, c.0)) (removed_reply val_room (ended remove) (some v) t.0 t.1),
    c.2,
    (omega (arith, c.3), omega (arith, c.3)),
  )
  settle insert ok room none ran t c = (c.0, c.1, c.2, (omega (arith, c.3), omega (arith, c.3)))
  settle insert ok room (some v) ran t c = (c.0, c.1, c.2, c.3)
  settle update ok room none ran t c = (c.0, c.1, c.2, (omega (arith, c.3), omega (arith, c.3)))
  settle update ok room (some v) ran t c = (c.0, c.1, c.2, (omega (arith, c.3), omega (arith, c.3)))
  settle replace ok room none ran t c = (c.0, c.1, c.2, c.3)
  settle replace ok room (some v) ran t c =
      (c.0, c.1, c.2, (omega (arith, c.3), omega (arith, c.3)))
