-- ===== src/Index/Table.antt =====
-- The table of p4/index.c. An entry is a key, 0 where it is empty, with an offset.
use jitcompilation.Prelude.{
  ℕ, zero, suc, ◌+◌, ◌*◌, ◌/◌, ◌%◌, ◌^◌, Bool, true, Option, none, some, List, [], ◌∷◌,
  if◌then◌else◌, ltb, ◌==◌, length, get_elem?, set, replicate,
}
use jitcompilation.Index.Hash.{key_of}

abbrev pub Maps : Type 0
Maps = List (ℕ × ℕ)

-- `struct index`, whose capacity is the length of `maps`.
pub record Index : Type 0 where
  pub size : ℕ
  pub maps : Maps

-- `(key + i) % index->capacity`, on uint64_t
unfoldable pub place : Maps → ℕ → ℕ → ℕ
place m key i = ((key + i) % 2 ^ 64) % length m

-- The loop of `update` and of index_lookup, with `n` rounds to go: the first place that is empty or
-- has the key.
unfoldable pub probe : Maps → ℕ → ℕ → ℕ → Option (ℕ × (ℕ × ℕ))
unfolding place
probe m key i zero = none
probe m key i (suc n) = elim (get_elem? m (place m key i)) [
  | none ↦ none
  | some (k, off) ↦
      if k == 0
      then some (place m key i, (k, off))
      else if k == key
      then some (place m key i, (k, off))
      else probe m key (i + 1) n
]

-- The index, and the place of the offset that the pointer returned points to; `none` is EXIT.
unfoldable pub update : Index → ℕ → Option (Index × ℕ)
unfolding probe
update index key = elim (probe index.maps key 0 (length index.maps)) [
  | none ↦ none
  | some (j, (k, off)) ↦
      if k == 0
      then some (record { size = index.size + 1; maps = set index.maps j (key, 0) }, j)
      else some (record index { maps = set index.maps j (key, off) }, j)
]

-- `*p = off` through a pointer to the offset at the place `j`
unfoldable pub assign : Index → ℕ → ℕ → Index
assign index j off = elim (get_elem? index.maps j) [
  | none ↦ index
  | some (k, _) ↦ record index { maps = set index.maps j (k, off) }
]

-- The offset that the pointer returned points to; `none` is NULL.
unfoldable pub lookup : Index → ℕ → Option ℕ
unfolding probe
lookup index key = elim (probe index.maps key 0 (length index.maps)) [
  | none ↦ none
  | some (j, (k, off)) ↦ if k == 0 then none else some off
]

unfoldable pub index_lookup : Index → List ℕ → Option ℕ
unfolding lookup
index_lookup index key_ = lookup index (key_of key_)

-- The table that `create` makes, and NULL where the allocation fails.
unfoldable pub create : Bool → ℕ → Option Index
create malloc capacity =
    if malloc then some (record { size = 0; maps = replicate capacity (0, 0) }) else none

-- The table of no places.
abbrev pub index_open : Bool → Option Index
index_open malloc = if malloc then some (record { size = 0; maps = [] }) else none

-- A round of the loop of `grow`, for an entry of the old table; `none` is EXIT.
unfoldable pub move : Index → ℕ → ℕ → Option Index
unfolding update assign
move index k off =
    if k == 0
    then some index
    else elim (update index k) [ none ↦ none | some (index', j) ↦ some (assign index' j off) ]

unfoldable pub rehash : Maps → Index → Option Index
unfolding move
rehash [] index = some index
rehash ((k, off) ∷ entries) index = elim (move index k off) [
  | none ↦ none
  | some index' ↦ rehash entries index'
]

-- `LOAD < load`; 0.70 and the quotient are compared as the fractions they stand for, which is what the
-- comparison of the doubles says for every capacity below 2^50.
unfoldable pub is_loaded : ℕ → ℕ → Bool
is_loaded size zero = true
is_loaded size (suc capacity) = ltb (7 * suc capacity) (10 * size)

-- How a call of `grow` or index_update can end: with an answer, with an error where the allocation
-- fails, or by EXIT.
pub data Answer (A : Type 0) : Type 0 where
  answer : A → Answer A
  failure exit : Answer A

unfoldable pub grow : Bool → Index → Answer Index
unfolding create rehash is_loaded
grow malloc index =
    if is_loaded index.size (length index.maps)
    then elim (create malloc ((length index.maps + 97) * 3 % 2 ^ 64 / 2)) [
      | none ↦ failure
      | some index_ ↦ elim (rehash index.maps index_) [ none ↦ exit | some index' ↦ answer index' ]
    ]
    else answer index

-- The index, and the place that the pointer returned points to.
unfoldable pub index_update : Bool → Index → List ℕ → Answer (Index × ℕ)
unfolding grow update
index_update malloc index key_ = elim (grow malloc index) [
  | failure ↦ failure
  | exit ↦ exit
  | answer index' ↦ elim (update index' (key_of key_)) [
    | none ↦ exit
    | some (index'', j) ↦ answer (index'', j)
  ]
]
