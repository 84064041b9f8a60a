-- ===== src/Index/Search.antt =====
-- The search of p4/index.c: what it finds, before and after a write at the place that it found.
use jitcompilation.Prelude.{
  ℕ, zero, suc, ◌+◌, ◌%◌, ◌^◌, ◌<◌, ◌≡◌, ◌≢◌, ◌⊎◌, inl, inr, refl, sym, ap, ◌∙◌, subst, true, false,
  Option, none, some, [], ◌∷◌, ◌==◌, length, length-set, get_elem?, get_elem?-set_self,
  get_elem?-set_ne, set, arith, Option-cases, ℕ_discrete,
}
use jitcompilation.Index.Table.{Maps, place, probe}

abbrev pub Found : Type 0
Found = Option (ℕ × (ℕ × ℕ))

pub ==_self : (k : ℕ) → (k == k) ≡ true
==_self k = ground arith

pub ==_ne : (k l : ℕ) → k ≢ l → (k == l) ≡ false
==_ne k l h = ground (arith, h)

-- The ways of a round.
module _ (m : Maps) (key i n : ℕ) where
  probe_outside : get_elem? m (place m key i) ≡ none → probe m key i (suc n) ≡ none
  unfolding probe
  probe_outside e = rw (e, probe) refl

  probe_empty :
      {off : ℕ}
      → get_elem? m (place m key i) ≡ some (0, off)
      → probe m key i (suc n) ≡ some (place m key i, (0, off))
  unfolding probe
  probe_empty e = rw (e, probe) refl

  probe_here :
      {off : ℕ}
      → key ≢ 0
      → get_elem? m (place m key i) ≡ some (key, off)
      → probe m key i (suc n) ≡ some (place m key i, (key, off))
  unfolding probe
  probe_here h e = rw (e, probe) (rw (==_ne key 0 h) (rw (==_self key) refl))

  probe_past :
      {k off : ℕ}
      → get_elem? m (place m key i) ≡ some (k, off)
      → k ≢ 0
      → k ≢ key
      → probe m key i (suc n) ≡ probe m key (i + 1) n
  unfolding probe
  probe_past {k} e filled other =
      rw (e, probe) (rw (==_ne k 0 filled) (rw (==_ne k key other) refl))

  pub probe_step :
      key ≢ 0
      → (P : Found → Type 0) → (get_elem? m (place m key i) ≡ none → P none)
      → ((off : ℕ)
          → get_elem? m (place m key i) ≡ some (0, off)
          → P (some (place m key i, (0, off))))
      → ((off : ℕ)
          → get_elem? m (place m key i) ≡ some (key, off)
          → P (some (place m key i, (key, off))))
      → ((k off : ℕ)
          → get_elem? m (place m key i) ≡ some (k, off)
          → k ≢ 0
          → k ≢ key
          → P (probe m key (i + 1) n))
      → P (probe m key i (suc n))
  probe_step h P outside empty here past = elim (Option-cases (get_elem? m (place m key i))) [
    | inl e ↦ subst P (sym (probe_outside e)) (outside e)
    | inr ((k, off), e) ↦ elim (ℕ_discrete k 0) [
      | yes nothing ↦
          let e' = e ∙ ap (λ x. some (x, off)) nothing in
          subst P (sym (probe_empty e')) (empty off e')
      | no filled ↦ elim (ℕ_discrete k key) [
        | yes same ↦
            let e' = e ∙ ap (λ x. some (x, off)) same in
            subst P (sym (probe_here h e')) (here off e')
        | no other ↦ subst P (sym (probe_past e filled other)) (past k off e filled other)
      ]
    ]
  ]

-- What a search finds stands in the table, and is empty or has the key.
abbrev pub Finds : Maps → ℕ → Found → Type 0
Finds m key none = Unit
Finds m key (some (j, (k, off))) = (get_elem? m j ≡ some (k, off)) × ((k ≡ 0) ⊎ (k ≡ key))

pub probe-Finds : (m : Maps) (key i n : ℕ) → key ≢ 0 → Finds m key (probe m key i n)
probe-Finds m key i zero h = unfold probe in tt
probe-Finds m key i (suc n) h =
    probe_step m key i n h (Finds m key) (λ e. tt) (λ off e. (e, inl refl)) (λ off e. (e, inr refl))
      λ k off e filled other. probe-Finds m key (i + 1) n h

pub in_bounds : (m : Maps) (j : ℕ) {x : ℕ × ℕ} → get_elem? m j ≡ some x → j < length m
in_bounds [] j e = absurd (ground (arith, e))
in_bounds (y ∷ m) zero e = omega arith
in_bounds (y ∷ m) (suc j) e = omega (arith, in_bounds m j e)

-- Injectivity, by projections.
pub spot : {p q : ℕ} {x y : ℕ × ℕ} → ◌≡◌ {A = Found} (some (p, x)) (some (q, y)) → p ≡ q
spot {p} e = ap (λ o. elim o [ none ↦ p | some (j, x) ↦ j ]) e

pub key_there : {k l a b : ℕ} → ◌≡◌ {A = Option (ℕ × ℕ)} (some (k, a)) (some (l, b)) → k ≡ l
key_there {k} e = ap (λ o. elim o [ none ↦ k | some (j, x) ↦ j ]) e

pub found_key : {p q k l a b : ℕ} → ◌≡◌ {A = Found} (some (p, (k, a))) (some (q, (l, b))) → k ≡ l
found_key {k = k} e = ap (λ o. elim o [ none ↦ k | some (j, (x, y)) ↦ x ]) e

pub entry_there : {x y : ℕ × ℕ} → ◌≡◌ {A = Option (ℕ × ℕ)} (some x) (some y) → x ≡ y
entry_there {x} e = ap (λ o. elim o [ none ↦ x | some z ↦ z ]) e

-- A write of the key at the place that a search for it found.
module _ (m : Maps) (key : ℕ) (h : key ≢ 0) (j k off v : ℕ) (there : get_elem? m j ≡ some (k, off))
    (old : (k ≡ 0) ⊎ (k ≡ key)) where
  abbrev written : Maps
  written = set m j (key, v)

  place-written : (l i : ℕ) → place written l i ≡ place m l i
  unfolding place
  place-written l i = ap (λ n. ((l + i) % 2 ^ 64) % n) (length-set m j (key, v))

  elsewhere :
      (l i : ℕ)
      → place m l i ≢ j
      → get_elem? written (place written l i) ≡ get_elem? m (place m l i)
  elsewhere l i ne =
      ap (get_elem? written) (place-written l i) ∙ get_elem?-set_ne m (key, v) (λ e. ne (sym e))

  here_written : (l i : ℕ) → place m l i ≡ j → get_elem? written (place written l i) ≡ some (key, v)
  here_written l i e =
      ap (get_elem? written) (place-written l i ∙ e)
      ∙ get_elem?-set_self m j (key, v) (in_bounds m j there)

  -- Another key than the two that the place has had is not there.
  not_there : (p : ℕ) {k0 o0 : ℕ} → get_elem? m p ≡ some (k0, o0) → k0 ≢ 0 → k0 ≢ key → p ≢ j
  not_there p e filled other same =
      let k0_is = key_there (sym e ∙ (ap (get_elem? m) same ∙ there)) in
      elim old [ inl empty ↦ filled (k0_is ∙ empty) | inr same_key ↦ other (k0_is ∙ same_key) ]

  -- A search for another key goes on where it went on.
  goes_on :
      (l i n : ℕ) {k0 o0 : ℕ}
      → key ≢ l
      → get_elem? m (place m l i) ≡ some (k0, o0)
      → k0 ≢ 0
      → k0 ≢ l
      → probe written l i (suc n) ≡ probe written l (i + 1) n
  goes_on l i n apart e filled other = elim (ℕ_discrete (place m l i) j) [
    | yes same ↦ probe_past written l i n (here_written l i same) h apart
    | no ne ↦ probe_past written l i n (elsewhere l i ne ∙ e) filled other
  ]

  stops :
      (i n : ℕ) {x : ℕ × ℕ}
      → ◌≡◌ {A = Found} (some (place m key i, x)) (some (j, (k, off)))
      → probe written key i (suc n) ≡ some (j, (key, v))
  stops i n e =
      probe_here written key i n h (here_written key i (spot e))
      ∙ ap (λ p. some (p, (key, v))) (place-written key i ∙ spot e)

  -- The search for the key stops where it stopped before.
  pub probe-written :
      (i n : ℕ) → probe m key i n ≡ some (j, (k, off)) → probe written key i n ≡ some (j, (key, v))
  probe-written i zero = unfold probe in λ e. cc
  probe-written i (suc n) =
      probe_step m key i n h
        (λ r. r ≡ some (j, (k, off)) → probe written key i (suc n) ≡ some (j, (key, v)))
        (λ none_there e. cc) (λ o here e. stops i n e) (λ o here e. stops i n e)
        λ k0 o0 e filled other found.
          probe_past written key i n (elsewhere key i (not_there _ e filled other) ∙ e) filled other
          ∙ probe-written (i + 1) n found

  -- A search that finds another key finds it still.
  pub probe-other :
      (l i n : ℕ) {p o : ℕ}
      → l ≢ 0
      → key ≢ l
      → probe m l i n ≡ some (p, (l, o))
      → probe written l i n ≡ some (p, (l, o))
  probe-other l i zero filled apart = unfold probe in λ e. cc
  probe-other l i (suc n) {p} {o} filled apart =
      probe_step m l i n filled
        (λ r. r ≡ some (p, (l, o)) → probe written l i (suc n) ≡ some (p, (l, o)))
        (λ none_there e. cc) (λ o' here e. absurd (filled (sym (found_key e))))
        (λ o' here e.
          probe_here written l i n filled
            (elsewhere l i (not_there _ here filled (λ q. apart (sym q))) ∙ here)
          ∙ (ap (λ q. some (q, (l, o'))) (place-written l i) ∙ e))
        λ k0 o0 e full other found.
          goes_on l i n apart e full other ∙ probe-other l (i + 1) n filled apart found
