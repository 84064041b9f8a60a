-- ===== src/Kv/Keys.antt =====
-- The comparisons of keys in p4/kvdb.c: memcmp on fronts of them, against equality.
use jitcompilation.Prelude.{
  ℕ, zero, suc, ◌≤◌, ◌≡◌, refl, ap, Bool, true, false, List, [], ◌∷◌, length, take, ◌==◌,
  if◌then◌else◌, Bool-cases, inl, inr, arith,
}
use jitcompilation.Kv.Db.{is_same}

abbrev pub key_eq : List ℕ → List ℕ → Bool
key_eq [] [] = true
key_eq [] (y ∷ ys) = false
key_eq (x ∷ xs) [] = false
key_eq (x ∷ xs) (y ∷ ys) = if x == y then key_eq xs ys else false

pub is_same-take : (n m : ℕ) (xs ys : List ℕ) → n ≤ m → is_same n (take m xs) ys ≡ is_same n xs ys
is_same-take zero m xs ys h = refl
is_same-take (suc n) zero xs ys h = absurd (omega (arith, h))
is_same-take (suc n) (suc m) [] ys h = refl
is_same-take (suc n) (suc m) (x ∷ xs) [] h = refl
is_same-take (suc n) (suc m) (x ∷ xs) (y ∷ ys) h =
    ap (λ b. if x == y then b else false) (is_same-take n m xs ys (omega (arith, h)))

pub is_same-key_eq :
    (xs ys : List ℕ) → length xs ≡ length ys → is_same (length ys) xs ys ≡ key_eq xs ys
is_same-key_eq [] [] h = refl
is_same-key_eq [] (y ∷ ys) h = refl
is_same-key_eq (x ∷ xs) [] h = absurd (omega (arith, h))
is_same-key_eq (x ∷ xs) (y ∷ ys) h =
    ap (λ b. if x == y then b else false) (is_same-key_eq xs ys (omega (arith, h)))

-- Equal keys have equal lengths, and no difference in any front.
pub key_eq-length : (xs ys : List ℕ) → key_eq xs ys ≡ true → length xs ≡ length ys
key_eq-length [] [] h = refl
key_eq-length [] (y ∷ ys) h = absurd (cc h)
key_eq-length (x ∷ xs) [] h = absurd (cc h)
key_eq-length (x ∷ xs) (y ∷ ys) h = elim (Bool-cases (x == y)) [
  | inl same ↦ ap suc (key_eq-length xs ys (rw same at h))
  | inr other ↦ absurd (cc (rw other at h))
]

pub key_eq-is_same : (n : ℕ) (xs ys : List ℕ) → key_eq xs ys ≡ true → is_same n xs ys ≡ true
key_eq-is_same zero xs ys h = refl
key_eq-is_same (suc n) [] [] h = refl
key_eq-is_same (suc n) [] (y ∷ ys) h = absurd (cc h)
key_eq-is_same (suc n) (x ∷ xs) [] h = absurd (cc h)
key_eq-is_same (suc n) (x ∷ xs) (y ∷ ys) h = elim (Bool-cases (x == y)) [
  | inl same ↦ rw same (key_eq-is_same n xs ys (rw same at h))
  | inr other ↦ absurd (cc (rw other at h))
]

pub key_eq_self : (xs : List ℕ) → key_eq xs xs ≡ true
key_eq_self [] = refl
key_eq_self (x ∷ xs) = let same : (x == x) ≡ true = ground arith in rw (same, key_eq_self xs) refl
