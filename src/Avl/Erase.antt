-- ===== src/Avl/Erase.antt =====
-- The removal of one occurrence of a word from an ascending list of counted words.
use Prim.Native.Nat.Ordering.{lt, eq, gt}
use jitcompilation.Prelude.{
  ℕ, ◌-◌, ◌≡◌, ◌≢◌, inl, inr, refl, ap, sym, ◌∙◌, Bool, true, false, List, [], ◌∷◌, ◌++◌, arith,
  if◌then◌else◌, ltb,
}
use jitcompilation.Avl.Strcmp.{
  strcmp, strcmp_cases, strcmp_refl, eq_of_strcmp, lt_of_gt, gt_of_lt, lt_trans,
}
use jitcompilation.Avl.Words.{Words, count, Before, After, After-trans, count-After, IsAscending}

unfoldable pub remove_word : List ℕ → Words → Words
remove_word w [] = []
remove_word w ((k, c) ∷ xs) = elim (strcmp w k) [
  | lt ↦ (k, c) ∷ xs
  | eq ↦ if ltb 1 c then (k, c - 1) ∷ xs else xs
  | gt ↦ (k, c) ∷ remove_word w xs
]

-- Every word occurs once.
abbrev pub Once : Words → Type 0
Once [] = Unit
Once ((k, c) ∷ xs) = (c ≡ 1) × Once xs

pub Once-append :
    (xs : Words) (k : List ℕ) (c : ℕ) (ys : Words)
    → Once (xs ++ (k, c) ∷ ys)
    → Once xs × (c ≡ 1) × Once ys
Once-append [] k c ys h = (tt, h.0, h.1)
Once-append ((j, n) ∷ xs) k c ys h =
    let (left, one, right) = Once-append xs k c ys h.1 in ((h.0, left), one, right)

if-append :
    (b : Bool) (xs ys zs : Words)
    → (if b then xs else ys) ++ zs ≡ (if b then xs ++ zs else ys ++ zs)
if-append true xs ys zs = refl
if-append false xs ys zs = refl

pub remove_word-left :
    (w k : List ℕ) (c : ℕ) (xs ys : Words)
    → strcmp w k ≡ lt
    → remove_word w (xs ++ (k, c) ∷ ys) ≡ remove_word w xs ++ (k, c) ∷ ys
unfolding remove_word
remove_word-left w k c [] ys h = rw (h, remove_word) refl
remove_word-left w k c ((j, n) ∷ xs) ys h = elim (strcmp_cases w j) [
  | inl below ↦ rw (below, remove_word) refl
  | inr (inl same) ↦
      rw (same, remove_word) (sym (if-append (ltb 1 n) ((j, n - 1) ∷ xs) xs ((k, c) ∷ ys)))
  | inr (inr above) ↦
      rw (above, remove_word) (ap (λ zs. (j, n) ∷ zs) (remove_word-left w k c xs ys h))
]

above_before : (w k j : List ℕ) → strcmp w k ≢ lt → strcmp j k ≡ lt → strcmp w j ≡ gt
above_before w k j h b = elim (strcmp_cases w k) [
  | inl below ↦ absurd (h below)
  | inr (inl same) ↦ rw (eq_of_strcmp w k same) (gt_of_lt j k b)
  | inr (inr above) ↦ gt_of_lt j w (lt_trans j k w b (lt_of_gt w k above))
]

-- The words before the one in question stay.
pub remove_word-past :
    (w k : List ℕ) (c : ℕ) (xs ys : Words)
    → strcmp w k ≢ lt
    → Before k xs
    → remove_word w (xs ++ (k, c) ∷ ys) ≡ xs ++ remove_word w ((k, c) ∷ ys)
unfolding remove_word
remove_word-past w k c [] ys h b = refl
remove_word-past w k c ((j, n) ∷ xs) ys h b =
    rw (above_before w k j h b.0, remove_word)
      (ap (λ zs. (j, n) ∷ zs) (remove_word-past w k c xs ys h b.1))

pub remove_word-right :
    (w k : List ℕ) (c : ℕ) (xs ys : Words)
    → strcmp w k ≡ gt
    → Before k xs
    → remove_word w (xs ++ (k, c) ∷ ys) ≡ xs ++ (k, c) ∷ remove_word w ys
unfolding remove_word
remove_word-right w k c xs ys h b =
    remove_word-past w k c xs ys (ground arith) b ∙ rw (h, remove_word) refl

pub remove_word-here :
    (w k : List ℕ) (c : ℕ) (xs ys : Words)
    → strcmp w k ≡ eq
    → Before k xs
    → remove_word w (xs ++ (k, c) ∷ ys) ≡ xs ++ (if ltb 1 c then (k, c - 1) ∷ ys else ys)
unfolding remove_word
remove_word-here w k c xs ys h b =
    remove_word-past w k c xs ys (ground arith) b ∙ rw (h, remove_word) refl

-- A removal takes one from the count of its word, and leaves the others.
pub count-remove_word :
    (w v : List ℕ) (xs : Words)
    → IsAscending xs
    → count v (remove_word w xs) ≡ count v xs - elim (strcmp v w) [ eq ↦ 1 | _ ↦ 0 ]
unfolding count remove_word
count-remove_word w v [] h = ground arith
count-remove_word w v ((k, c) ∷ xs) h = ground (
  arith,
  count-remove_word w v xs h.1,
  eq_of_strcmp v w,
  eq_of_strcmp w k,
  strcmp_refl k,
  count-After v xs,
  count-After w xs,
  After-trans w k xs,
)

After-remove_word : (w v : List ℕ) (xs : Words) → After v xs → After v (remove_word w xs)
unfolding remove_word
After-remove_word w v [] a = tt
After-remove_word w v ((k, c) ∷ xs) a = ground (arith, After-remove_word w v xs)

pub remove_word-IsAscending :
    (w : List ℕ) (xs : Words) → IsAscending xs → IsAscending (remove_word w xs)
unfolding remove_word
remove_word-IsAscending w [] h = tt
remove_word-IsAscending w ((k, c) ∷ xs) h =
    ground (arith, remove_word-IsAscending w xs h.1, After-remove_word w k xs)
