-- ===== src/Index/Room.antt =====
-- p4/index.c does not run out of places: an update of a table with an empty place reaches one.
use native.Mathlib.Nat.{mod-lt, mod-add-mod, mod-eq_of_lt, add-mod_right}
use jitcompilation.Prelude.{
  ℕ, zero, suc, ◌+◌, ◌-◌, ◌%◌, ◌^◌, ◌<◌, ◌≤◌, ◌≡◌, ◌≢◌, sym, ap, ◌∙◌, none, some, [], ◌∷◌, length,
  get_elem?, arith, Option-cases, dec_lt, ℕ_discrete, inl, inr, ◌==◌, Bool-cases,
}
use jitcompilation.Index.Table.{Maps, Index, place, probe, update}
use jitcompilation.Index.Search.{probe_step, key_there, in_bounds}

within : (m : Maps) (j : ℕ) → j < length m → get_elem? m j ≢ none
within [] j h = absurd (omega arith)
within (x ∷ m) zero h = λ e. cc
within (x ∷ m) (suc j) h = within m j (omega arith)

place-lt : (m : Maps) (key i : ℕ) → 0 < length m → place m key i < length m
unfolding place
place-lt m key i h = mod-lt ((key + i) % 2 ^ 64) h

-- A search that finds nothing has met no empty place.
probe-none :
    (m : Maps) (key i n : ℕ)
    → key ≢ 0
    → 0 < length m
    → probe m key i n ≡ none
    → (x off : ℕ) → i ≤ x
    → x < i + n
    → get_elem? m (place m key x) ≢ some (0, off)
probe-none m key i zero h more nothing x off low high = absurd (omega arith)
probe-none m key i (suc n) h more nothing x off low high =
    probe_step m key i n h (λ r. r ≡ none → get_elem? m (place m key x) ≢ some (0, off))
      (λ outside e. absurd (within m (place m key i) (place-lt m key i more) outside))
      (λ o here e. cc) (λ o here e. cc)
      (λ k o there filled other none_after. elim (ℕ_discrete x i) [
        | yes same ↦ λ empty.
            filled
              (key_there (sym there ∙ (ap (λ y. get_elem? m (place m key y)) (sym same) ∙ empty)))
        | no ne ↦ probe-none m key (i + 1) n h more none_after x off (omega arith) (omega arith)
      ])
      nothing

place_lem :
    (m : Maps) (key x : ℕ) → key + x < 2 ^ 64 → place m key x ≡ (key % length m + x) % length m
unfolding place
place_lem m key x h = ap (λ n. n % length m) (mod-eq_of_lt h) ∙ sym (mod-add-mod key (length m) x)

-- Without a wrap, the rounds reach every place.
reaches :
    (m : Maps) (key q : ℕ)
    → q < length m
    → key + length m ≤ 2 ^ 64
    → (x : ℕ) × (x < length m) × (place m key x ≡ q)
reaches m key q h fits =
    let r = key % length m in
    let r_lt = mod-lt key {m = length m} (omega arith) in
    elim (dec_lt q r) [
      | yes before ↦ (
        q + length m - r,
        omega arith,
        place_lem m key (q + length m - r) (omega arith)
            ∙ (ap (λ n. n % length m) (omega arith)
                ∙ (add-mod_right q (length m) ∙ mod-eq_of_lt h)),
      )
      | no after ↦ (
        q - r,
        omega arith,
        place_lem m key (q - r) (omega arith)
            ∙ (ap (λ n. n % length m) (omega arith) ∙ mod-eq_of_lt h),
      )
    ]

-- An update of a key other than 0 finds a place, and so does not come to EXIT, if the table has an
-- empty place and the key is so far from 2^64 that the rounds do not wrap.
pub update-ne-none :
    (index : Index) (key q off : ℕ)
    → key ≢ 0
    → get_elem? index.maps q ≡ some (0, off)
    → key + length index.maps ≤ 2 ^ 64
    → update index key ≢ none
unfolding update
update-ne-none index key q off h empty fits =
    let bound = in_bounds index.maps q empty in
    let (x, x_lt, at_q) = reaches index.maps key q bound fits in
    elim (Option-cases (probe index.maps key 0 (length index.maps))) [
      | inl nothing ↦ absurd (
          probe-none index.maps key 0 (length index.maps) h (omega arith) nothing x off
            (omega arith) (omega arith) (ap (get_elem? index.maps) at_q ∙ empty))
      | inr ((j, (k, o)), found) ↦ elim (Bool-cases (k == 0)) [
        | inl vacant ↦ rw (found, update) (rw vacant (λ e. cc))
        | inr taken ↦ rw (found, update) (rw taken (λ e. cc))
      ]
    ]
