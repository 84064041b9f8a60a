-- ===== src/Index/Store.antt =====
-- p4/index.c as a store: a search finds the offset that was written last through the pointer that an
-- update of the key returned.
use jitcompilation.Prelude.{
  ℕ, ◌≡◌, ◌≢◌, ◌⊎◌, inl, inr, refl, sym, ap, ◌∙◌, subst, Option, none, some, length, length-set,
  get_elem?, get_elem?-set_self, get_elem?-set_ne, set, Option-cases, ℕ_discrete,
}
use jitcompilation.Index.Table.{Maps, Index, probe, update, assign, lookup}
use jitcompilation.Index.Search.{
  Found, Finds, probe-Finds, probe-written, probe-other, found_key, entry_there, spot, key_there,
  in_bounds, ==_ne,
}

abbrev pub find : Maps → ℕ → Found
find m key = probe m key 0 (length m)

-- The search for a key that stands in the table finds the place where it stands.
abbrev pub IsSettled : Maps → Type 0
IsSettled m = (j k off : ℕ) → get_elem? m j ≡ some (k, off) → k ≢ 0 → find m k ≡ some (j, (k, off))

abbrev pub IsAbsent : Maps → ℕ → Type 0
IsAbsent m l = (j off : ℕ) → get_elem? m j ≢ some (l, off)

-- A key stands where the search finds it, or nowhere.
present :
    (m : Maps) (l : ℕ)
    → l ≢ 0
    → IsSettled m
    → ((p : ℕ) × (o : ℕ) × (find m l ≡ some (p, (l, o)))) ⊎ IsAbsent m l
present m l filled h = elim (Option-cases (find m l)) [
  | inl nothing ↦ inr (λ j off e. cc (h j l off e filled, nothing))
  | inr ((p, (k, o)), found) ↦
      elim (subst (Finds m l) found (probe-Finds m l 0 (length m) filled)).1 [
        | inl empty ↦ inr (λ j off e. filled (found_key (sym (h j l off e filled) ∙ found) ∙ empty))
        | inr same ↦ inl (p, o, found ∙ ap (λ x. some (p, (x, o))) same)
      ]
]

pub lookup-find :
    (index : Index) (l : ℕ) {p o : ℕ}
    → l ≢ 0
    → find index.maps l ≡ some (p, (l, o))
    → lookup index l ≡ some o
unfolding lookup
lookup-find index l filled found = rw (found, lookup) (rw (==_ne l 0 filled) refl)

pub lookup-IsAbsent :
    (index : Index) (l : ℕ) → l ≢ 0 → IsAbsent index.maps l → lookup index l ≡ none
unfolding lookup
lookup-IsAbsent index l filled absent = elim (Option-cases (find index.maps l)) [
  | inl nothing ↦ rw (nothing, lookup) refl
  | inr ((p, (k, o)), found) ↦
      let stands =
        subst (Finds index.maps l) found (probe-Finds index.maps l 0 (length index.maps) filled) in
      elim stands.1 [
        | inl empty ↦ rw (found ∙ ap (λ x. some (p, (x, o))) empty, lookup) refl
        | inr same ↦ absurd (absent p o (stands.0 ∙ ap (λ x. some (x, o)) same))
      ]
]

-- A write of the key at the place that the search for it found.
pub record Writes (m m' : Maps) (key j v : ℕ) : Type 0 where
  pub settled : IsSettled m'
  pub found : find m' key ≡ some (j, (key, v))
  pub there : get_elem? m' j ≡ some (key, v)
  pub others :
      (n n' l : ℕ)
      → l ≢ 0
      → key ≢ l
      → lookup (record { size = n'; maps = m' }) l ≡ lookup (record { size = n; maps = m }) l

module _ (m : Maps) (key : ℕ) (h : key ≢ 0) (settled : IsSettled m) (j k off v : ℕ)
    (found : find m key ≡ some (j, (k, off))) where
  abbrev after : Maps
  after = set m j (key, v)

  stands : Finds m key (some (j, (k, off)))
  stands = subst (Finds m key) found (probe-Finds m key 0 (length m) h)

  same_length : length after ≡ length m
  same_length = length-set m j (key, v)

  found_after : find after key ≡ some (j, (key, v))
  found_after =
      ap (probe after key 0) same_length
      ∙ probe-written m key h j k off v stands.0 stands.1 0 (length m) found

  other_after :
      (l : ℕ) {p o : ℕ}
      → l ≢ 0
      → key ≢ l
      → find m l ≡ some (p, (l, o))
      → find after l ≡ some (p, (l, o))
  other_after l filled apart e =
      ap (probe after l 0) same_length
      ∙ probe-other m key h j k off v stands.0 stands.1 l 0 (length m) filled apart e

  there_after : get_elem? after j ≡ some (key, v)
  there_after = get_elem?-set_self m j (key, v) (in_bounds m j stands.0)

  before : (p l o : ℕ) → p ≢ j → get_elem? after p ≡ some (l, o) → get_elem? m p ≡ some (l, o)
  before p l o ne e = sym (get_elem?-set_ne m (key, v) (λ q. ne (sym q))) ∙ e

  settled_after : IsSettled after
  settled_after p l o e filled = elim (ℕ_discrete p j) [
    | yes here ↦
        subst (λ x. find after x.0 ≡ some (p, x))
          (entry_there (sym there_after ∙ (ap (get_elem? after) (sym here) ∙ e)))
          (found_after ∙ ap (λ q. some (q, (key, v))) (sym here))
    | no ne ↦ elim (ℕ_discrete key l) [
      | yes same ↦ absurd (ne (place_of p l o (before p l o ne e) filled same))
      | no apart ↦ other_after l filled apart (settled p l o (before p l o ne e) filled)
    ]
  ]
    where
      place_of : (p l o : ℕ) → get_elem? m p ≡ some (l, o) → l ≢ 0 → key ≡ l → p ≡ j
      place_of p l o e filled same =
          spot (sym (settled p l o e filled) ∙ (ap (find m) (sym same) ∙ found))

  IsAbsent-after : (l : ℕ) → key ≢ l → IsAbsent m l → IsAbsent after l
  IsAbsent-after l apart absent p o e = elim (ℕ_discrete p j) [
    | yes here ↦ apart (key_there (sym there_after ∙ (ap (get_elem? after) (sym here) ∙ e)))
    | no ne ↦ absent p o (before p l o ne e)
  ]

  others_after :
      (n n' l : ℕ)
      → l ≢ 0
      → key ≢ l
      → lookup (record { size = n'; maps = after }) l ≡ lookup (record { size = n; maps = m }) l
  others_after n n' l filled apart = elim (present m l filled settled) [
    | inl (p, o, e) ↦
        lookup-find (record { size = n'; maps = after }) l filled (other_after l filled apart e)
        ∙ sym (lookup-find (record { size = n; maps = m }) l filled e)
    | inr absent ↦
        lookup-IsAbsent (record { size = n'; maps = after }) l filled
          (IsAbsent-after l apart absent)
        ∙ sym (lookup-IsAbsent (record { size = n; maps = m }) l filled absent)
  ]

  pub written-Writes : Writes m after key j v
  written-Writes = record {
    settled = settled_after;
    found = found_after;
    there = there_after;
    others = others_after;
  }

-- What an update followed by an assignment through its pointer leaves.
pub record Stores (index index' : Index) (key off : ℕ) : Type 0 where
  pub settled : IsSettled index'.maps
  pub stored : lookup index' key ≡ some off
  pub kept : (l : ℕ) → l ≢ 0 → key ≢ l → lookup index' l ≡ lookup index l

module _ (key : ℕ) (h : key ≢ 0) where
  -- Two writes of the key at its place.
  twice :
      {m m1 m2 : Maps} {j v w : ℕ} (n n1 n2 : ℕ)
      → Writes m m1 key j v
      → Writes m1 m2 key j w
      → Stores (record { size = n; maps = m }) (record { size = n2; maps = m2 }) key w
  twice {m} {m1} {m2} n n1 n2 first second = record {
    settled = second.settled;
    stored = lookup-find (record { size = n2; maps = m2 }) key h second.found;
    kept = λ l filled apart. second.others n1 n2 l filled apart ∙ first.others n n1 l filled apart;
  }

  assign_lem :
      (index : Index) (j off : ℕ) {v : ℕ}
      → get_elem? index.maps j ≡ some (key, v)
      → assign index j off ≡ record index { maps = set index.maps j (key, off) }
  unfolding assign
  assign_lem index j off e = rw (e, assign) refl

  -- After an update the maps are those before it with the key written.
  abbrev Updated : Maps → Option (Index × ℕ) → Type 0
  Updated m none = Unit
  Updated m (some (index', j)) = (v : ℕ) × Writes m index'.maps key j v

  update-Updated : (index : Index) → IsSettled index.maps → Updated index.maps (update index key)
  unfolding update
  update-Updated index settled = elim (Option-cases (find index.maps key)) [
    | inl nothing ↦ rw (nothing, update) tt
    | inr ((p, (k, o)), found) ↦ elim (ℕ_discrete k 0) [
      | yes empty ↦
          let found' = found ∙ ap (λ x. some (p, (x, o))) empty in
          rw (found', update) (0, written-Writes index.maps key h settled p 0 o 0 found')
      | no filled ↦
          rw (found, update)
            (rw (==_ne k 0 filled) (o, written-Writes index.maps key h settled p k o o found))
    ]
  ]

  -- A key that is not 0 is updated in a settled table, and an offset is assigned through the
  -- pointer: the table is settled, the key has the offset, and every other key has what it had.
  pub update-Stores :
      (index : Index) {index' : Index} {j : ℕ}
      → IsSettled index.maps
      → update index key ≡ some (index', j)
      → (off : ℕ) → Stores index (assign index' j off) key off
  update-Stores index {index'} {j} settled e off =
      let (v, first) = subst (Updated index.maps) e (update-Updated index settled) in
      let second = written-Writes index'.maps key h first.settled j key v off first.found in
      subst (λ x. Stores index x key off) (sym (assign_lem index' j off first.there))
        (twice index.size index'.size index'.size first second)
