-- ===== src/Index/Reference.antt =====
-- The pointer that index_update of p4/index.c returns: what it points to before anything is assigned,
-- and that every search finds what it found before.
use jitcompilation.Prelude.{
  ℕ, ◌≡◌, ◌≢◌, refl, sym, ap, ◌∙◌, subst, inl, inr, Option, none, some, List, Bool, get_elem?,
  Option-cases, ℕ_discrete,
}
use jitcompilation.Index.Hash.{key_of, key_of-ne-zero}
use jitcompilation.Index.Table.{
  Maps, Index, update, lookup, Answer, answer, failure, exit, grow, index_update,
}
use jitcompilation.Index.Search.{==_ne}
use jitcompilation.Index.Store.{IsSettled, find, lookup-find, Writes, written-Writes}
use jitcompilation.Index.Growth.{Agrees, grow-Agrees}

-- The offset of a search, 0 where it finds none.
abbrev pub offset_of : Option ℕ → ℕ
offset_of none = 0
offset_of (some off) = off

-- A settled table with the old offset of the key at a place, that finds what another finds.
pub record Refers (index : Index) (key : ℕ) (index' : Index) (j : ℕ) : Type 0 where
  pub settled : IsSettled index'.maps
  pub there : get_elem? index'.maps j ≡ some (key, offset_of (lookup index key))
  pub agrees : (l : ℕ) → l ≢ 0 → offset_of (lookup index' l) ≡ offset_of (lookup index l)

module _ (key : ℕ) (h : key ≢ 0) where
  abbrev Updates : Index → Option (Index × ℕ) → Type 0
  Updates index none = Unit {0}
  Updates index (some (index', j)) = Refers index key index' j

  refers :
      (index : Index) (n v : ℕ) {m : Maps} {j : ℕ}
      → Writes index.maps m key j v
      → offset_of (lookup index key) ≡ v
      → Refers index key (record { size = n; maps = m }) j
  refers index n v {m} {j} w old = record {
    settled = w.settled;
    there = w.there ∙ ap (λ o. some (key, o)) (sym old);
    agrees = λ l filled. elim (ℕ_discrete key l) [
      | yes same ↦
          subst
            (λ k. offset_of (lookup (record { size = n; maps = m }) k) ≡ offset_of (lookup index k))
            same
            (ap offset_of (lookup-find (record { size = n; maps = m }) key h w.found) ∙ sym old)
      | no apart ↦ ap offset_of (w.others index.size n l filled apart)
    ];
  }

  old_empty :
      (index : Index) {p o : ℕ}
      → find index.maps key ≡ some (p, (0, o))
      → offset_of (lookup index key) ≡ 0
  unfolding lookup
  old_empty index e = rw (e, lookup) refl

  old_filled :
      (index : Index) {p k o : ℕ}
      → k ≢ 0
      → find index.maps key ≡ some (p, (k, o))
      → offset_of (lookup index key) ≡ o
  unfolding lookup
  old_filled index {k = k} filled e = rw (e, lookup) (rw (==_ne k 0 filled) refl)

  update-Updates : (index : Index) → IsSettled index.maps → Updates index (update index key)
  unfolding update
  update-Updates index settled = elim (Option-cases (find index.maps key)) [
    | inl nothing ↦ rw (nothing, update) tt
    | inr ((p, (k, o)), found) ↦ elim (ℕ_discrete k 0) [
      | yes empty ↦
          let found' = found ∙ ap (λ x. some (p, (x, o))) empty in
          rw (found', update)
            (refers index _ 0 (written-Writes index.maps key h settled p 0 o 0 found')
              (old_empty index found'))
      | no filled ↦
          rw (found, update)
            (rw (==_ne k 0 filled) (
              refers index _ o (written-Writes index.maps key h settled p k o o found)
                (old_filled index filled found)))
    ]
  ]

-- What index_update answers for a key of a settled table.
abbrev Answers : Index → List ℕ → Answer (Index × ℕ) → Type 0
Answers index key_ failure = Unit {0}
Answers index key_ exit = Unit {0}
Answers index key_ (answer (index', j)) = Refers index (key_of key_) index' j

index_update-Answers :
    (malloc : Bool) (index : Index) (key_ : List ℕ)
    → IsSettled index.maps
    → Answers index key_ (index_update malloc index key_)
unfolding index_update
index_update-Answers malloc index key_ settled =
    go (grow malloc index) (grow-Agrees malloc index settled)
  where
    go :
        (a : Answer Index)
        → Agrees index a
        → Answers index key_ (elim a [
          | failure ↦ failure
          | exit ↦ exit
          | answer index' ↦ elim (update index' (key_of key_)) [
            | none ↦ exit
            | some (index'', j) ↦ answer (index'', j)
          ]
        ])
    go failure p = tt
    go exit p = tt
    go (answer index') p = elim (Option-cases (update index' (key_of key_))) [
      | inl stuck ↦ rw stuck tt
      | inr ((index'', j), e) ↦
          let r =
            subst (Updates (key_of key_) (key_of-ne-zero key_) index') e
              (update-Updates (key_of key_) (key_of-ne-zero key_) index' p.0) in
          rw e (record {
            settled = r.settled;
            there =
                r.there
                ∙ ap (λ o. some (key_of key_, offset_of o))
                    (p.1 (key_of key_) (key_of-ne-zero key_));
            agrees = λ l filled. r.agrees l filled ∙ ap offset_of (p.1 l filled);
          })
    ]

-- In a settled table, where index_update answers, its pointer leads to the offset that a search for the
-- key found, or to 0, and every search finds the offset that it found before, or 0 for none.
pub index_update-Refers :
    (malloc : Bool) (index : Index) (key_ : List ℕ) {index' : Index} {j : ℕ}
    → IsSettled index.maps
    → index_update malloc index key_ ≡ answer (index', j)
    → Refers index (key_of key_) index' j
index_update-Refers malloc index key_ settled e =
    subst (Answers index key_) e (index_update-Answers malloc index key_ settled)
