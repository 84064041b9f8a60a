-- ===== src/Kv/Change.antt =====
-- `mutate` of p4/kvdb.c: a change that is not refused puts one record in front of the chain of its key.
use jitcompilation.Prelude.{
  ℕ, ◌+◌, ◌<◌, ◌≡◌, ◌≢◌, refl, sym, ap, ◌∙◌, subst, Bool, true, false, Option, none, some, List,
  ◌∷◌, ◌++◌, length, ◌==◌, if◌then◌else◌, ℕ_discrete, arith,
}
use jitcompilation.Index.Hash.{key_of, key_of-ne-zero}
use jitcompilation.Index.Table.{Index, answer, assign, lookup, index_lookup, index_update}
use jitcompilation.Index.Store.{IsSettled}
use jitcompilation.Index.Growth.{index_lookup-index_update}
use jitcompilation.Index.Reference.{offset_of, Refers, index_update-Refers}
use jitcompilation.Log.Device.{Call, gives, bind_call}
use jitcompilation.Log.Store.{Outside}
use jitcompilation.Log.Writes.{SameSizes}
use jitcompilation.Kv.Meta.{meta_len}
use jitcompilation.Kv.Raw.{kvraw_append}
use jitcompilation.Kv.Records.{Storable, Stored, record_bytes, RoomFor, append-Stored}
use jitcompilation.Kv.Chain.{
  Entry, Chain, link, end_of, Searched, Roomy, both_same, chain_lookup-Searched,
}
use jitcompilation.Kv.Db.{
  Kvdb, ChainEnd, chain_lookup, Mode, Reply, invalid, is_live, counted, appended, asked, reply_of,
  deref, apply_change, change, with_ref, mutate,
}
use jitcompilation.Kv.State.{IsDb, Chain-append, Stands-new, Chain-inside}

-- The lists after a record was added.
abbrev pub put_entry : ℕ → Entry → (ℕ → List Entry) → ℕ → List Entry
put_entry hash entry entries l = if l == hash then entry ∷ entries l else entries l

index_lookup-key_of :
    (index : Index) (key other : List ℕ)
    → key_of key ≡ key_of other
    → index_lookup index key ≡ index_lookup index other
unfolding index_lookup
index_lookup-key_of index key other e = ap (lookup index) e

lookup-key_of : (index : Index) (key : List ℕ) → index_lookup index key ≡ lookup index (key_of key)
unfolding index_lookup
lookup-key_of index key = refl

module _ (outside : Outside) (works : (n : ℕ) → outside.works n ≡ true) (kvdb : Kvdb) (log : List ℕ)
    (entries : ℕ → List Entry) (h : IsDb kvdb log entries) (key val : List ℕ) (val_room : Option ℕ)
    (mode : Mode) (some_bytes : 0 < length log)
    (ok : Storable kvdb.kvraw.logfs.device.block key (appended mode val))
    (room : RoomFor kvdb.kvraw
      (length log + meta_len + length key + length (appended mode val))) where
  -- The old newest record of the chain, and where the search in it ends.
  abbrev pub prev : ℕ
  prev = offset_of (index_lookup kvdb.index key)

  abbrev pub end : ChainEnd
  end = end_of key (asked mode val_room) (entries (key_of key))

  abbrev pub new_log : List ℕ
  new_log = log ++ record_bytes key (appended mode val) prev

  abbrev pub new_entries : ℕ → List Entry
  new_entries = put_entry (key_of key) (length log, key, appended mode val) entries

  -- A change that is refused leaves the lists as they are; another one adds its record, and sets the
  -- counters.
  abbrev pub Changes : Option (ℕ × ℕ) → Call (Reply × Kvdb) → Type 0
  Changes none ran =
      (after : Kvdb) × (ran ≡ gives (invalid, after))
      × IsDb after log entries
      × ((after.size ≡ kvdb.size) × (after.waste ≡ kvdb.waste))
      × SameSizes kvdb.kvraw.logfs after.kvraw.logfs
  Changes (some counts) ran =
      (after : Kvdb) × (ran ≡ gives (reply_of mode val_room end, after))
      × IsDb after new_log new_entries
      × ((after.size ≡ counts.0) × (after.waste ≡ counts.1))
      × SameSizes kvdb.kvraw.logfs after.kvraw.logfs

  module _ (malloc : Bool) {index : Index} {j : ℕ}
      (updated : index_update malloc kvdb.index key ≡ answer (index, j)) where
    r : Refers kvdb.index (key_of key) index j
    r = index_update-Refers malloc kvdb.index key h.settled updated

    old_offset : deref index j ≡ prev
    old_offset = rw (r.there, deref) (ap offset_of (sym (lookup-key_of kvdb.index key)))

    search_room : Roomy kvdb.kvraw log
    search_room = (omega (arith, room), omega (arith, room))

    searched :
        Searched kvdb.kvraw log end
          (chain_lookup outside true kvdb.kvraw key (asked mode val_room) prev)
    searched =
        chain_lookup-Searched outside works log key (asked mode val_room) (h.chains key) kvdb.kvraw
          h.is_raw search_room

    abbrev found : Kvdb
    found = record kvdb { index = index; kvraw = searched.after }

    still_there :
        (other : List ℕ) → Chain log (offset_of (index_lookup index other)) (entries (key_of other))
    still_there other =
        subst (λ o. Chain log o (entries (key_of other)))
          (ap offset_of (lookup-key_of kvdb.index other)
            ∙ sym (r.agrees (key_of other) (key_of-ne-zero other))
            ∙ ap offset_of (sym (lookup-key_of index other)))
          (h.chains other)

    refused : IsDb found log entries
    refused = record { is_raw = searched.is_raw; settled = r.settled; chains = still_there }

    stored : Stored outside searched.after key (appended mode val) prev log
    stored =
        append-Stored outside works searched.after log key (appended mode val) prev searched.is_raw
          (subst (λ blk. Storable blk key (appended mode val)) (sym searched.same.same_block) ok)
          (
            omega (arith, room, searched.same.same_block, searched.same.same_device),
            omega (arith, room, searched.same.same_device),
          )

    index_after :
        IsSettled (assign index j (length log)).maps
        × (index_lookup (assign index j (length log)) key ≡ some (length log))
        × ((other : List ℕ)
            → key_of key ≢ key_of other
            → index_lookup (assign index j (length log)) other ≡ index_lookup kvdb.index other)
    index_after = index_lookup-index_update malloc kvdb.index key h.settled updated (length log)

    abbrev changed : ℕ × ℕ → Kvdb
    changed counts = record {
      size = counts.0;
      waste = counts.1;
      kvraw = stored.after;
      index = assign index j (length log);
    }

    Chain-put :
        Chain new_log (length log) ((length log, key, appended mode val) ∷ entries (key_of key))
    Chain-put =
        let inside = Chain-inside (h.chains key) some_bytes in
        link inside
          (Stands-new log key (appended mode val) prev ok.key_len ok.val_len
            (omega (arith, inside, room)))
          (Chain-append (record_bytes key (appended mode val) prev) (h.chains key))

    chains_after :
        (other : List ℕ)
        → Chain new_log
            (offset_of (index_lookup (assign index j (length log)) other))
            (new_entries (key_of other))
    chains_after other = elim (ℕ_discrete (key_of other) (key_of key)) [
      | yes same ↦
          let one : (key_of other == key_of key) ≡ true = ground (arith, same) in
          let there : offset_of (index_lookup (assign index j (length log)) other) ≡ length log =
            ap offset_of
              (index_lookup-key_of (assign index j (length log)) other key same ∙ index_after.1) in
          rw one (
            subst
              (λ o. Chain new_log o ((length log, key, appended mode val) ∷ entries (key_of other)))
              (sym there)
              (subst
                (λ l. Chain new_log (length log) ((length log, key, appended mode val) ∷ entries l))
                (sym same) Chain-put))
      | no apart ↦
          let two : (key_of other == key_of key) ≡ false = ground (arith, apart) in
          rw two (
            subst (λ o. Chain new_log (offset_of o) (entries (key_of other)))
              (sym (index_after.2 other (λ e. apart (sym e))))
              (Chain-append (record_bytes key (appended mode val) prev) (h.chains other)))
    ]

    applied :
        (counts : Option (ℕ × ℕ))
        → Changes counts (apply_change outside mode key val val_room j end found counts)
    applied none = (found, refl, refused, (refl, refl), searched.same)
    applied (some counts) = (
      changed counts,
      ap
            (λ off.
              bind_call (kvraw_append outside searched.after key (appended mode val) off) (λ placed.
                gives (
                  reply_of mode val_room end,
                  (record {
                    size = counts.0;
                    waste = counts.1;
                    kvraw = placed.1;
                    index = assign index j placed.0;
                  }),
                )))
            old_offset
          ∙ ap
              (λ call. bind_call call (λ placed. gives (
                reply_of mode val_room end,
                (record {
                  size = counts.0;
                  waste = counts.1;
                  kvraw = placed.1;
                  index = assign index j placed.0;
                }),
              )))
              stored.ran,
      record { is_raw = stored.is_raw; settled = index_after.0; chains = chains_after },
      (refl, refl),
      both_same searched.same stored.same,
    )

    ran_change :
        mutate outside malloc true kvdb key val val_room mode
        ≡ apply_change outside mode key val val_room j end found
            (counted mode (is_live end) (kvdb.size, kvdb.waste))
    unfolding mutate
    ran_change =
        ap (with_ref outside true mode key val val_room kvdb) updated
        ∙ ap
            (λ off.
              bind_call (chain_lookup outside true kvdb.kvraw key (asked mode val_room) off)
                (change outside mode key val val_room j (record kvdb { index = index })))
            old_offset
        ∙ ap
            (λ call.
              bind_call call
                (change outside mode key val val_room j (record kvdb { index = index })))
            searched.result

    pub mutate-Changes :
        Changes
          (counted mode (is_live end) (kvdb.size, kvdb.waste))
          (mutate outside malloc true kvdb key val val_room mode)
    mutate-Changes =
        subst (Changes (counted mode (is_live end) (kvdb.size, kvdb.waste))) (sym ran_change)
          (applied (counted mode (is_live end) (kvdb.size, kvdb.waste)))
