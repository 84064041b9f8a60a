-- ===== src/Kv/Db.antt =====
-- p4/kvdb.c: a key leads, by its hash, to the newest record of its chain.
use jitcompilation.Prelude.Bytes.{add_size, sub_size}
use jitcompilation.Prelude.{
  ℕ, zero, suc, Bool, true, false, ◌&&◌, Option, none, some, List, [], ◌∷◌, length, get_elem?, min,
  ltb, leb, ◌==◌, if◌then◌else◌,
}
use jitcompilation.Index.Table.{
  Index, Answer, answer, failure, exit, assign, index_lookup, index_update,
}
use jitcompilation.Log.Device.{Call, stops, fails, hangs, gives, bind_call}
use jitcompilation.Log.Store.{Outside}
use jitcompilation.Kv.Raw.{Kvraw, FoundRecord, kvraw_lookup, kvraw_append}

-- `struct kvdb`
pub record Kvdb : Type 0 where
  pub size : ℕ
  pub waste : ℕ
  pub kvraw : Kvraw
  pub index : Index

-- Whether memcmp finds no difference in the first `n` bytes.
abbrev pub is_same : ℕ → List ℕ → List ℕ → Bool
is_same zero xs ys = true
is_same (suc n) [] [] = true
is_same (suc n) [] (y ∷ ys) = false
is_same (suc n) (x ∷ xs) [] = false
is_same (suc n) (x ∷ xs) (y ∷ ys) = if x == y then is_same n xs ys else false

-- The size of `buf`, and of the pointer `key_`.
abbrev pub buf_size : ℕ
buf_size = 256

abbrev pub pointer_size : ℕ
pointer_size = 8

-- Where the search ended: the record's offset, or 0; its value as far as there was room, and the length
-- that is stored.
pub record ChainEnd : Type 0 where
  pub off : ℕ
  pub val : List ℕ
  pub val_len : ℕ

-- The second look at a record, with the whole key.
abbrev pub judge_again :
    List ℕ → ℕ → List ℕ → Call (ChainEnd × Kvraw) → FoundRecord × Kvraw → Call (ChainEnd × Kvraw)
judge_again key off val next again =
    if is_same (length key) again.0.key key
    then gives (record { off = off; val = val; val_len = again.0.val_len }, again.1)
    else next

module _ (outside : Outside) where
  -- What is done with a record: `next` is the search from the record before it. `fresh` says whether
  -- there is memory for the key.
  abbrev pub judge :
      Bool
      → List ℕ
      → ℕ
      → (Kvraw → ℕ → Call (ChainEnd × Kvraw))
      → FoundRecord × Kvraw
      → Call (ChainEnd × Kvraw)
  judge fresh key off next found =
      if (found.0.key_len == length key) && is_same (min (length key) pointer_size) found.0.key key
      then if ltb pointer_size found.0.key_len
        then if fresh
          then bind_call (kvraw_lookup outside found.1 off found.0.key_len 0)
              (λ again. judge_again key off found.0.val (next again.1 again.0.off) again)
          else fails
        else judge_again key off found.0.val (next found.1 found.0.off) found
      else next found.1 found.0.off

  unfoldable pub chain_from : ℕ → Bool → Kvraw → List ℕ → ℕ → ℕ → Call (ChainEnd × Kvraw)
  chain_from zero fresh kvraw key val_room off = hangs
  chain_from (suc rounds) fresh kvraw key val_room off =
      let round =
        bind_call (kvraw_lookup outside kvraw off (min (length key) buf_size) val_room)
          (judge fresh key off (λ kvraw' off'. chain_from rounds fresh kvraw' key val_room off')) in
      if off == 0 then gives (record { off = 0; val = []; val_len = val_room }, kvraw) else round

  -- Offsets fall along a chain, so that there are no more rounds than the first one has bytes in front.
  unfoldable pub chain_lookup : Bool → Kvraw → List ℕ → ℕ → ℕ → Call (ChainEnd × Kvraw)
  chain_lookup fresh kvraw key val_room off = chain_from (suc off) fresh kvraw key val_room off

-- MUTATE_REMOVE and the others
pub data Mode : Type 0 where
  remove insert update replace : Mode

-- The status, 0 or +1, with the value and the length stored for the caller of a removal or a search.
pub record Reply : Type 0 where
  pub status : ℕ
  pub val : List ℕ
  pub val_len : ℕ

abbrev pub invalid : Reply
invalid = record { status = 1; val = []; val_len = 0 }

abbrev pub done_with : List ℕ → ℕ → Reply
done_with val val_len = record { status = 0; val = val; val_len = val_len }

-- Whether the search found a record that is no removal.
abbrev pub is_live : ChainEnd → Bool
is_live end = if end.off == 0 then false else if end.val_len == 0 then false else true

-- The counters, the size and the waste, after a change of a live key, or of another one; `none` is a
-- change that is refused.
abbrev pub counted : Mode → Bool → ℕ × ℕ → Option (ℕ × ℕ)
counted remove true (size, waste) = some (sub_size size 1, add_size waste 1)
counted remove false counts = none
counted insert true counts = none
counted insert false (size, waste) = some (add_size size 1, waste)
counted update true (size, waste) = some (size, add_size waste 1)
counted update false (size, waste) = some (add_size size 1, waste)
counted replace true (size, waste) = some (size, add_size waste 1)
counted replace false counts = none

-- The value that is appended: none for a removal.
abbrev pub appended : Mode → List ℕ → List ℕ
appended remove val = []
appended _ val = val

-- The length passed to the search, and what the caller gets.
abbrev pub asked : Mode → Option ℕ → ℕ
asked remove (some val_room) = val_room
asked _ _ = 0

abbrev pub reply_of : Mode → Option ℕ → ChainEnd → Reply
reply_of remove (some val_room) end = done_with end.val end.val_len
reply_of _ _ end = done_with [] 0

-- What the caller of kvdb_lookup gets.
abbrev pub found_reply : ChainEnd → Reply
found_reply end = if is_live end then done_with end.val end.val_len else invalid

-- `*ref`, the offset at a place of the index
abbrev pub deref : Index → ℕ → ℕ
deref index j = elim (get_elem? index.maps j) [ none ↦ 0 | some (k, off) ↦ off ]

-- The assertions of the functions below: a key of 1 to 0xffff bytes, and as for the value 1 to
-- 0xffffffff.
abbrev pub is_key : List ℕ → Bool
is_key key = if length key == 0 then false else leb (length key) 65535

abbrev pub is_val : List ℕ → Bool
is_val val = if length val == 0 then false else leb (length val) 4294967295

abbrev pub room_of : Option ℕ → ℕ
room_of none = 0
room_of (some val_room) = val_room

-- The last message of the function reads the length through the pointer, NULL or not.
abbrev pub looked_up : Option ℕ → Kvdb → ChainEnd × Kvraw → Call (Reply × Kvdb)
looked_up none kvdb found =
    if is_live found.0 then stops else gives (invalid, record kvdb { kvraw = found.1 })
looked_up (some val_room) kvdb found = gives (found_reply found.0, record kvdb { kvraw = found.1 })

module _ (outside : Outside) where
  -- The record is appended, and the index leads to it.
  abbrev pub apply_change :
      Mode → List ℕ → List ℕ → Option ℕ → ℕ → ChainEnd → Kvdb → Option (ℕ × ℕ) → Call (Reply × Kvdb)
  apply_change mode key val val_room j end kvdb none = gives (invalid, kvdb)
  apply_change mode key val val_room j end kvdb (some counts) =
      bind_call (kvraw_append outside kvdb.kvraw key (appended mode val) (deref kvdb.index j))
        (λ placed. gives (
          reply_of mode val_room end,
          (record {
            size = counts.0;
            waste = counts.1;
            kvraw = placed.1;
            index = assign kvdb.index j placed.0;
          }),
        ))

  abbrev pub change :
      Mode → List ℕ → List ℕ → Option ℕ → ℕ → Kvdb → ChainEnd × Kvraw → Call (Reply × Kvdb)
  change mode key val val_room j kvdb found =
      apply_change mode key val val_room j found.0 (record kvdb { kvraw = found.1 })
        (counted mode (is_live found.0) (kvdb.size, kvdb.waste))

  abbrev pub with_ref :
      Bool → Mode → List ℕ → List ℕ → Option ℕ → Kvdb → Answer (Index × ℕ) → Call (Reply × Kvdb)
  with_ref fresh mode key val val_room kvdb failure = fails
  with_ref fresh mode key val val_room kvdb exit = stops
  with_ref fresh mode key val val_room kvdb (answer (index, j)) =
      bind_call (chain_lookup outside fresh kvdb.kvraw key (asked mode val_room) (deref index j))
        (change mode key val val_room j (record kvdb { index = index }))

  -- `malloc` and `fresh` say whether there is memory for the index and for a key; `val_room` is the
  -- caller's length, `none` a NULL.
  unfoldable pub mutate :
      Bool → Bool → Kvdb → List ℕ → List ℕ → Option ℕ → Mode → Call (Reply × Kvdb)
  mutate malloc fresh kvdb key val val_room mode =
      with_ref fresh mode key val val_room kvdb (index_update malloc kvdb.index key)

  unfoldable pub kvdb_remove : Bool → Bool → Kvdb → List ℕ → Option ℕ → Call (Reply × Kvdb)
  kvdb_remove malloc fresh kvdb key val_room =
      if is_key key then mutate malloc fresh kvdb key [] val_room remove else stops

  abbrev pub put : Mode → Bool → Bool → Kvdb → List ℕ → List ℕ → Call (Reply × Kvdb)
  put mode malloc fresh kvdb key val =
      if is_key key && is_val val
      then mutate malloc fresh kvdb key val (some (length val)) mode
      else stops

  unfoldable pub kvdb_insert : Bool → Bool → Kvdb → List ℕ → List ℕ → Call (Reply × Kvdb)
  kvdb_insert = put insert

  unfoldable pub kvdb_update : Bool → Bool → Kvdb → List ℕ → List ℕ → Call (Reply × Kvdb)
  kvdb_update = put update

  unfoldable pub kvdb_replace : Bool → Bool → Kvdb → List ℕ → List ℕ → Call (Reply × Kvdb)
  kvdb_replace = put replace

  abbrev pub from_ref : Bool → Kvdb → List ℕ → Option ℕ → Option ℕ → Call (Reply × Kvdb)
  from_ref fresh kvdb key val_room none = gives (invalid, kvdb)
  from_ref fresh kvdb key val_room (some zero) = gives (invalid, kvdb)
  from_ref fresh kvdb key val_room (some (suc off)) =
      bind_call (chain_lookup outside fresh kvdb.kvraw key (room_of val_room) (suc off))
        (looked_up val_room kvdb)

  unfoldable pub kvdb_lookup : Bool → Kvdb → List ℕ → Option ℕ → Call (Reply × Kvdb)
  kvdb_lookup fresh kvdb key val_room =
      if is_key key then from_ref fresh kvdb key val_room (index_lookup kvdb.index key) else stops
