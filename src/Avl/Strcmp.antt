-- ===== src/Avl/Strcmp.antt =====
-- libc's strcmp on strings as lists of unsigned characters with no NUL, and its laws.
use Prim.Native.Nat.{compare, Ordering}
use Prim.Native.Nat.Ordering.{lt, eq, gt}
use jitcompilation.Prelude.{ℕ, List, [], ◌∷◌, ◌≡◌, ◌⊎◌, inl, inr, refl, arith}

-- The sign of the result.
unfoldable pub strcmp : List ℕ → List ℕ → Ordering
strcmp [] [] = eq
strcmp [] (b ∷ t) = lt
strcmp (a ∷ s) [] = gt
strcmp (a ∷ s) (b ∷ t) = elim (compare a b) [ lt ↦ lt | eq ↦ strcmp s t | gt ↦ gt ]

pub strcmp_refl : (s : List ℕ) → strcmp s s ≡ eq
unfolding strcmp
strcmp_refl [] = refl
strcmp_refl (a ∷ s) = ground (arith, strcmp_refl s)

pub eq_of_strcmp : (s t : List ℕ) → strcmp s t ≡ eq → s ≡ t
unfolding strcmp
eq_of_strcmp [] [] h = refl
eq_of_strcmp [] (b ∷ t) h = ground arith
eq_of_strcmp (a ∷ s) [] h = ground arith
eq_of_strcmp (a ∷ s) (b ∷ t) h = ground (arith, eq_of_strcmp s t)

pub lt_of_gt : (s t : List ℕ) → strcmp s t ≡ gt → strcmp t s ≡ lt
unfolding strcmp
lt_of_gt [] [] h = ground arith
lt_of_gt [] (b ∷ t) h = ground arith
lt_of_gt (a ∷ s) [] h = refl
lt_of_gt (a ∷ s) (b ∷ t) h = ground (arith, lt_of_gt s t)

pub gt_of_lt : (s t : List ℕ) → strcmp s t ≡ lt → strcmp t s ≡ gt
unfolding strcmp
gt_of_lt [] [] h = ground arith
gt_of_lt [] (b ∷ t) h = refl
gt_of_lt (a ∷ s) [] h = ground arith
gt_of_lt (a ∷ s) (b ∷ t) h = ground (arith, gt_of_lt s t)

pub lt_trans : (r s t : List ℕ) → strcmp r s ≡ lt → strcmp s t ≡ lt → strcmp r t ≡ lt
unfolding strcmp
lt_trans [] [] t h k = ground arith
lt_trans [] (b ∷ s) [] h k = ground arith
lt_trans [] (b ∷ s) (c ∷ t) h k = refl
lt_trans (a ∷ r) [] t h k = ground arith
lt_trans (a ∷ r) (b ∷ s) [] h k = ground arith
lt_trans (a ∷ r) (b ∷ s) (c ∷ t) h k = ground (arith, lt_trans r s t)

-- The three answers, each with its equation.
pub strcmp_cases : (s t : List ℕ) → (strcmp s t ≡ lt) ⊎ ((strcmp s t ≡ eq) ⊎ (strcmp s t ≡ gt))
strcmp_cases s t = go (strcmp s t)
  where
    go : (o : Ordering) → (o ≡ lt) ⊎ ((o ≡ eq) ⊎ (o ≡ gt))
    go lt = inl refl
    go eq = inr (inl refl)
    go gt = inr (inr refl)
