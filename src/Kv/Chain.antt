-- ===== src/Kv/Chain.antt =====
-- chain_lookup of p4/kvdb.c finds the newest record of a key in its chain.
use jitcompilation.Prelude.{
  ℕ, zero, suc, ◌+◌, ◌^◌, ◌≤◌, ◌<◌, ◌≡◌, refl, sym, ap, ◌∙◌, subst, Bool, true, false, ◌&&◌, List,
  [], ◌∷◌, length, take, min, ltb, ◌==◌, if◌then◌else◌, Bool-cases, inl, inr, arith,
}
use jitcompilation.Log.Device.{Call, gives, bind_call}
use jitcompilation.Log.Store.{Outside, Logfs}
use jitcompilation.Log.Writes.{SameSizes}
use jitcompilation.Kv.Raw.{Kvraw, FoundRecord, kvraw_lookup}
use jitcompilation.Kv.Records.{IsRaw}
use jitcompilation.Kv.Lookup.{Stands, Looked, found_of, lookup-Looked}
use jitcompilation.Kv.Keys.{key_eq, is_same-take, is_same-key_eq, key_eq-length, key_eq-is_same}
use jitcompilation.Kv.Db.{
  is_same, buf_size, pointer_size, ChainEnd, judge_again, judge, chain_from, chain_lookup,
}

-- A record of a chain: its offset, key and value.
abbrev pub Entry : Type 0
Entry = ℕ × List ℕ × List ℕ

-- The records of a chain, the newest first; offsets fall.
pub data Chain (log : List ℕ) : ℕ → List Entry → Type 0 where
  bottom : Chain log 0 []
  link :
      {off prev : ℕ} {key val : List ℕ} {entries : List Entry}
      → prev < off
      → Stands log off key val prev
      → Chain log prev entries
      → Chain log off ((off, key, val) ∷ entries)

-- Where a search for a key ends, by the list of records.
abbrev pub end_of : List ℕ → ℕ → List Entry → ChainEnd
end_of key val_room [] = record { off = 0; val = []; val_len = val_room }
end_of key val_room ((off, k, v) ∷ entries) =
    if key_eq k key
    then record { off = off; val = take (min (length v) val_room) v; val_len = length v }
    else end_of key val_room entries

-- A call that ends with a result, on the same log.
pub record Searched (kvraw : Kvraw) (log : List ℕ) (end : ChainEnd) (ran : Call (ChainEnd × Kvraw))
    : Type 0 where
  pub after : Kvraw
  pub result : ran ≡ gives (end, after)
  pub is_raw : IsRaw after log
  pub same : SameSizes kvraw.logfs after.logfs

abbrev pub Roomy : Kvraw → List ℕ → Type 0
Roomy kvraw log =
    (length log + kvraw.logfs.device.block ≤ kvraw.logfs.device.size)
    × (kvraw.logfs.device.size < 2 ^ 64)

pub Roomy-same :
    (kvraw kvraw' : Kvraw) (log : List ℕ)
    → SameSizes kvraw.logfs kvraw'.logfs
    → Roomy kvraw log
    → Roomy kvraw' log
Roomy-same kvraw kvraw' log same room =
    (omega (arith, room, same.same_block, same.same_device), omega (arith, room, same.same_device))

pub both_same : {a b c : Logfs} → SameSizes a b → SameSizes b c → SameSizes a c
both_same first rest = record {
  same_device = rest.same_device ∙ first.same_device;
  same_block = rest.same_block ∙ first.same_block;
  same_ring = rest.same_ring ∙ first.same_ring;
}

steps :
    {kvraw : Kvraw} {log : List ℕ} {end : ChainEnd} {ran ran' : Call (ChainEnd × Kvraw)}
    → ran ≡ ran'
    → Searched kvraw log end ran'
    → Searched kvraw log end ran
steps e s = record { after = s.after; result = e ∙ s.result; is_raw = s.is_raw; same = s.same }

-- A search that goes on after another call.
later :
    {kvraw kvraw' : Kvraw} {log : List ℕ} {end : ChainEnd} {ran : Call (ChainEnd × Kvraw)}
    → SameSizes kvraw.logfs kvraw'.logfs
    → Searched kvraw' log end ran
    → Searched kvraw log end ran
later first rest = record {
  after = rest.after;
  result = rest.result;
  is_raw = rest.is_raw;
  same = both_same first rest.same;
}

module _ (outside : Outside) (works : (n : ℕ) → outside.works n ≡ true) (log : List ℕ)
    (key : List ℕ) (val_room : ℕ) where
  module _ (next : Kvraw → ℕ → Call (ChainEnd × Kvraw)) (end : ChainEnd) {off : ℕ} {k v : List ℕ}
      {prev : ℕ} (nonzero : 0 < off) (s : Stands log off k v prev)
      (go_on : (kvraw : Kvraw)
        → IsRaw kvraw log
        → Roomy kvraw log
        → Searched kvraw log end (next kvraw prev))
      (kvraw : Kvraw) (h : IsRaw kvraw log) (room : Roomy kvraw log) where
    abbrev room_in : ℕ
    room_in = min (length key) buf_size

    abbrev ended : ChainEnd
    ended =
        if key_eq k key
        then record { off = off; val = take (min (length v) val_room) v; val_len = length v }
        else end

    looked : Looked outside kvraw log off room_in val_room (found_of k v prev room_in val_room)
    looked =
        lookup-Looked outside works kvraw log h room.0 room.1 off k v prev s room_in val_room
          nonzero

    looked_room : Roomy looked.after log
    looked_room = Roomy-same kvraw looked.after log looked.same room

    again : Looked outside looked.after log off (length k) 0 (found_of k v prev (length k) 0)
    again =
        lookup-Looked outside works looked.after log looked.is_raw looked_room.0 looked_room.1 off k
          v prev s (length k) 0 nonzero

    went_on : key_eq k key ≡ false → Searched kvraw log ended (next looked.after prev)
    went_on other =
        rw other
          (later {kvraw' = looked.after} looked.same (go_on looked.after looked.is_raw looked_room))

    -- The keys have one length, and the comparison decides.
    compared :
        (n : ℕ) (found : FoundRecord) (after : Kvraw)
        → length k ≡ length key
        → length key ≤ n
        → found.key ≡ take n k
        → found.off ≡ prev
        → found.val_len ≡ length v
        → IsRaw after log
        → SameSizes kvraw.logfs after.logfs
        → Searched kvraw log ended (
            judge_again key off
              (take (min (length v) val_room) v)
              (next after found.off)
              (found, after))
    compared n found after same_length enough key_there off_there len_there raw same =
        let decides : is_same (length key) found.key key ≡ key_eq k key =
          ap (λ xs. is_same (length key) xs key) key_there
          ∙ is_same-take (length key) n k key enough
          ∙ is_same-key_eq k key same_length in
        elim (Bool-cases (key_eq k key)) [
          | inl equal ↦
              rw (decides, equal)
                (record {
                  after = after;
                  result =
                      ap
                        (λ m. gives (
                          record { off = off; val = take (min (length v) val_room) v; val_len = m },
                          after,
                        ))
                        len_there;
                  is_raw = raw;
                  same = same;
                })
          | inr other ↦
              rw (decides, other)
                (later {kvraw' = after} same (
                  subst (λ o. Searched after log end (next after o)) (sym off_there)
                    (go_on after raw (Roomy-same kvraw after log same room))))
        ]

    abbrev first_test : Bool
    first_test =
        (length k == length key)
        && is_same (min (length key) pointer_size) (take (min (length k) room_in) k) key

    first_test-equal : key_eq k key ≡ true → first_test ≡ true
    first_test-equal equal =
        let lengths = key_eq-length k key equal in
        let one_length : (length k == length key) ≡ true = ground (arith, lengths) in
        let front =
          is_same-take (min (length key) pointer_size) (min (length k) room_in) k key
            (omega (arith, lengths))
          ∙ key_eq-is_same (min (length key) pointer_size) k key equal in
        rw (one_length, front) refl

    first_test-length : first_test ≡ true → length k ≡ length key
    first_test-length passed = elim (Bool-cases (length k == length key)) [
      | inl same ↦ ground (arith, same)
      | inr other ↦ absurd (cc (rw other at passed))
    ]

    different : first_test ≡ false → key_eq k key ≡ false
    different failed = elim (Bool-cases (key_eq k key)) [
      | inl equal ↦ absurd (cc (sym (first_test-equal equal) ∙ failed))
      | inr other ↦ other
    ]

    judged :
        Searched kvraw log ended
          (judge outside true key off next (found_of k v prev room_in val_room, looked.after))
    judged = elim (Bool-cases first_test) [
      | inr failed ↦ rw failed (went_on (different failed))
      | inl passed ↦ elim (Bool-cases (ltb pointer_size (length k))) [
        | inl long ↦
            rw (passed, long)
              (steps
                (ap
                  (λ call. bind_call call (λ found.
                    judge_again key off (take (min (length v) val_room) v)
                      (next found.1 found.0.off) found))
                  again.ran)
                (compared (min (length k) (length k)) (found_of k v prev (length k) 0) again.after
                  (first_test-length passed) (omega (arith, first_test-length passed)) refl refl
                  refl again.is_raw (both_same looked.same again.same)))
        | inr short ↦
            rw (passed, short)
              (compared (min (length k) room_in) (found_of k v prev room_in val_room) looked.after
                (first_test-length passed) (ground (arith, first_test-length passed, short)) refl
                refl refl looked.is_raw looked.same)
      ]
    ]

    -- One round of the search.
    round : Searched kvraw log ended (
        bind_call
          (kvraw_lookup outside kvraw off room_in val_room)
          (judge outside true key off next))
    round = steps (ap (λ call. bind_call call (judge outside true key off next)) looked.ran) judged

  chain_from-Searched :
      (rounds : ℕ) {off : ℕ} {entries : List Entry}
      → Chain log off entries
      → off < rounds
      → (kvraw : Kvraw) → IsRaw kvraw log
      → Roomy kvraw log
      → Searched kvraw log
          (end_of key val_room entries)
          (chain_from outside rounds true kvraw key val_room off)
  unfolding chain_from
  chain_from-Searched zero chain enough kvraw h room = absurd (omega (arith, enough))
  chain_from-Searched (suc rounds) bottom enough kvraw h room = record {
    after = kvraw;
    result = refl;
    is_raw = h;
    same = record { same_device = refl; same_block = refl; same_ring = refl };
  }
  chain_from-Searched (suc rounds)
        (link {off = off} {prev = prev} {key = k} {val = v} {entries = entries} falls s rest) enough
        kvraw h room =
      let nonzero : 0 < off = omega (arith, falls) in
      let some_off : (off == 0) ≡ false = ground (arith, nonzero) in
      rw some_off (
        round (λ kvraw' off'. chain_from outside rounds true kvraw' key val_room off')
          (end_of key val_room entries) nonzero s
          (λ kvraw' h' room'.
            chain_from-Searched rounds rest (omega (arith, falls, enough)) kvraw' h' room')
          kvraw h room)

  -- In a log in order, with a block of the device free behind it, a device that works, and memory, the
  -- search from the newest record of a chain returns, and ends at the newest record of the key, with its
  -- value cut to the length passed in, or at offset 0 where the chain has none.
  pub chain_lookup-Searched :
      {off : ℕ} {entries : List Entry}
      → Chain log off entries
      → (kvraw : Kvraw) → IsRaw kvraw log
      → Roomy kvraw log
      → Searched kvraw log
          (end_of key val_room entries)
          (chain_lookup outside true kvraw key val_room off)
  unfolding chain_lookup
  chain_lookup-Searched {off} chain kvraw h room =
      chain_from-Searched (suc off) chain (omega arith) kvraw h room
