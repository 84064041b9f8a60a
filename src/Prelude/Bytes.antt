-- ===== src/Prelude/Bytes.antt =====
-- Memory as lists of bytes: copies, slices, numbers in little-endian order, and `size_t`.
use jitcompilation.Prelude.{
  ℕ, zero, suc, ◌+◌, ◌-◌, ◌*◌, ◌/◌, ◌%◌, ◌^◌, ◌≤◌, ◌<◌, ◌≡◌, ◌⊎◌, inl, inr, refl, ap, ◌∙◌, sym,
  List, [], ◌∷◌, ◌++◌, length, length-append, length-take, length-drop, get_elem?, take, drop,
  replicate, arith,
}
use native.Mathlib.Numerals.{unary_clauses}
use native.Mathlib.Nat.{div-add-mod', div-lt_iff_lt-mul}

-- `size_t` arithmetic where it can wrap
abbrev pub add_size : ℕ → ℕ → ℕ
add_size a b = (a + b) % 2 ^ 64

abbrev pub sub_size : ℕ → ℕ → ℕ
sub_size a b = (a + 2 ^ 64 - b) % 2 ^ 64

-- The bytes of a number, the lowest first, and back.
abbrev pub le_bytes : ℕ → ℕ → List ℕ
le_bytes zero x = []
le_bytes (suc n) x = (x % 256) ∷ le_bytes n (x / 256)

abbrev pub le_value : List ℕ → ℕ
le_value [] = 0
le_value (b ∷ bs) = b + 256 * le_value bs

-- `memcpy(dst + at, src, length src)`, inside `dst`
abbrev pub memcpy : List ℕ → ℕ → List ℕ → List ℕ
memcpy dst at src = take at dst ++ (src ++ drop (at + length src) dst)

-- The `n` bytes from `p`.
abbrev pub slice : List ℕ → ℕ → ℕ → List ℕ
slice xs p n = take n (drop p xs)

-- `n` bytes of memory that was set to zero, with `src` copied to its start.
abbrev pub zero_padded : List ℕ → ℕ → List ℕ
zero_padded src n = src ++ replicate (n - length src) 0

add_zero : (n : ℕ) → 0 + n ≡ n
add_zero n = omega arith

suc_add : (m n : ℕ) → suc m + n ≡ suc (m + n)
suc_add m n = omega arith

module _ {ℓ} {A : Type ℓ} where
  pub get_elem?-append_lt :
      (xs ys : List A) (i : ℕ) → i < length xs → get_elem? (xs ++ ys) i ≡ get_elem? xs i
  get_elem?-append_lt [] ys i h = absurd (omega (arith, h))
  get_elem?-append_lt (x ∷ xs) ys zero h = refl
  get_elem?-append_lt (x ∷ xs) ys (suc i) h = get_elem?-append_lt xs ys i (omega (arith, h))

  pub get_elem?-append_ge :
      (xs ys : List A) (i : ℕ)
      → length xs ≤ i
      → get_elem? (xs ++ ys) i ≡ get_elem? ys (i - length xs)
  get_elem?-append_ge [] ys i h = ap (get_elem? ys) (omega arith)
  get_elem?-append_ge (x ∷ xs) ys zero h = absurd (omega (arith, h))
  get_elem?-append_ge (x ∷ xs) ys (suc i) h =
      get_elem?-append_ge xs ys i (omega (arith, h)) ∙ ap (get_elem? ys) (omega arith)

  pub get_elem?-drop :
      (n : ℕ) (xs : List A) (i : ℕ) → get_elem? (drop n xs) i ≡ get_elem? xs (n + i)
  get_elem?-drop zero xs i = ap (get_elem? xs) (sym (add_zero i))
  get_elem?-drop (suc n) [] i = refl
  get_elem?-drop (suc n) (x ∷ xs) i =
      get_elem?-drop n xs i ∙ ap (get_elem? (x ∷ xs)) (sym (suc_add n i))

  pub get_elem?-take :
      (n : ℕ) (xs : List A) (i : ℕ) → i < n → get_elem? (take n xs) i ≡ get_elem? xs i
  get_elem?-take zero xs i h = absurd (omega (arith, h))
  get_elem?-take (suc n) [] i h = refl
  get_elem?-take (suc n) (x ∷ xs) zero h = refl
  get_elem?-take (suc n) (x ∷ xs) (suc i) h = get_elem?-take n xs i (omega (arith, h))

  pub take-add : (m n : ℕ) (xs : List A) → take m xs ++ take n (drop m xs) ≡ take (m + n) xs
  take-add zero n xs = ap (λ k. take k xs) (sym (add_zero n))
  take-add (suc m) zero [] = simp unary_clauses refl
  take-add (suc m) (suc n) [] = simp unary_clauses refl
  take-add (suc m) n (x ∷ xs) =
      ap (λ ys. x ∷ ys) (take-add m n xs) ∙ ap (λ k. take k (x ∷ xs)) (sym (suc_add m n))

  pub drop-drop : (m n : ℕ) (xs : List A) → drop n (drop m xs) ≡ drop (m + n) xs
  drop-drop zero n xs = ap (λ k. drop k xs) (sym (add_zero n))
  drop-drop (suc m) zero [] = simp unary_clauses refl
  drop-drop (suc m) (suc n) [] = simp unary_clauses refl
  drop-drop (suc m) n (x ∷ xs) = drop-drop m n xs ∙ ap (λ k. drop k (x ∷ xs)) (sym (suc_add m n))

  pub take-all : (n : ℕ) (xs : List A) → length xs ≤ n → take n xs ≡ xs
  take-all zero [] h = refl
  take-all zero (x ∷ xs) h = absurd (omega (arith, h))
  take-all (suc n) [] h = refl
  take-all (suc n) (x ∷ xs) h = rw (take-all n xs (omega (arith, h)))

  pub drop-all : (n : ℕ) (xs : List A) → length xs ≤ n → drop n xs ≡ []
  drop-all zero [] h = refl
  drop-all zero (x ∷ xs) h = absurd (omega (arith, h))
  drop-all (suc n) [] h = refl
  drop-all (suc n) (x ∷ xs) h = drop-all n xs (omega (arith, h))

  pub take-append_le : (n : ℕ) (xs ys : List A) → n ≤ length xs → take n (xs ++ ys) ≡ take n xs
  take-append_le zero xs ys h = refl
  take-append_le (suc n) [] ys h = absurd (omega (arith, h))
  take-append_le (suc n) (x ∷ xs) ys h = rw (take-append_le n xs ys (omega (arith, h)))

  -- Two lists of one length with the same elements.
  pub list_ext :
      (xs ys : List A)
      → length xs ≡ length ys
      → ((i : ℕ) → i < length xs → get_elem? xs i ≡ get_elem? ys i)
      → xs ≡ ys
  list_ext [] [] h same = refl
  list_ext [] (y ∷ ys) h same = absurd (omega (arith, h))
  list_ext (x ∷ xs) [] h same = absurd (omega (arith, h))
  list_ext (x ∷ xs) (y ∷ ys) h same =
      let tails =
        list_ext xs ys (omega (arith, h)) (λ i inside. same (suc i) (omega (arith, inside))) in
      cc (tails, same 0 (omega arith))

-- What a copy leaves at each place.
module _ (dst : List ℕ) (at : ℕ) (src : List ℕ) (fits : at + length src ≤ length dst) where
  front_size : length (take at dst) ≡ at
  front_size = omega (arith, fits, length-take at dst)

  pub get_elem?-memcpy_in :
      (j : ℕ)
      → at ≤ j
      → j < at + length src
      → get_elem? (memcpy dst at src) j ≡ get_elem? src (j - at)
  get_elem?-memcpy_in j from inside =
      get_elem?-append_ge (take at dst) (src ++ drop (at + length src) dst) j
        (omega (arith, from, front_size))
      ∙ ap (λ n. get_elem? (src ++ drop (at + length src) dst) (j - n)) front_size
      ∙ get_elem?-append_lt src (drop (at + length src) dst) (j - at) (omega (arith, from, inside))

  pub get_elem?-memcpy_before : (j : ℕ) → j < at → get_elem? (memcpy dst at src) j ≡ get_elem? dst j
  get_elem?-memcpy_before j before =
      get_elem?-append_lt (take at dst) (src ++ drop (at + length src) dst) j
        (omega (arith, before, front_size))
      ∙ get_elem?-take at dst j before

  pub get_elem?-memcpy_after :
      (j : ℕ) → at + length src ≤ j → get_elem? (memcpy dst at src) j ≡ get_elem? dst j
  get_elem?-memcpy_after j after =
      get_elem?-append_ge (take at dst) (src ++ drop (at + length src) dst) j
        (omega (arith, after, front_size))
      ∙ ap (λ n. get_elem? (src ++ drop (at + length src) dst) (j - n)) front_size
      ∙ get_elem?-append_ge src (drop (at + length src) dst) (j - at) (omega (arith, after))
      ∙ get_elem?-drop (at + length src) dst (j - at - length src)
      ∙ ap (get_elem? dst) (omega (arith, after))

  pub length-memcpy : length (memcpy dst at src) ≡ length dst
  length-memcpy = omega (
    arith,
    fits,
    front_size,
    length-append (take at dst) (src ++ drop (at + length src) dst),
    length-append src (drop (at + length src) dst),
    length-drop (at + length src) dst,
  )

pub length-slice : (xs : List ℕ) (p n : ℕ) → p + n ≤ length xs → length (slice xs p n) ≡ n
length-slice xs p n fits = omega (arith, fits, length-take n (drop p xs), length-drop p xs)

pub get_elem?-slice :
    (xs : List ℕ) (p n i : ℕ) → i < n → get_elem? (slice xs p n) i ≡ get_elem? xs (p + i)
get_elem?-slice xs p n i inside = get_elem?-take n (drop p xs) i inside ∙ get_elem?-drop p xs i

-- Two slices with the same elements.
pub slice_ext :
    (xs ys : List ℕ) (p q n : ℕ)
    → p + n ≤ length xs
    → q + n ≤ length ys
    → ((i : ℕ) → i < n → get_elem? xs (p + i) ≡ get_elem? ys (q + i))
    → slice xs p n ≡ slice ys q n
slice_ext xs ys p q n fits fits' same =
    list_ext (slice xs p n) (slice ys q n)
      (length-slice xs p n fits ∙ sym (length-slice ys q n fits'))
      (λ i inside.
        let i_lt : i < n = omega (arith, inside, length-slice xs p n fits) in
        get_elem?-slice xs p n i i_lt ∙ same i i_lt ∙ sym (get_elem?-slice ys q n i i_lt))

-- A slice of memory that a copy wrote, one beside it, and one that it wrote exactly.
module _ (dst : List ℕ) (at : ℕ) (src : List ℕ) (fits : at + length src ≤ length dst) where
  pub slice-memcpy_beside :
      (p n : ℕ)
      → p + n ≤ length dst
      → (p + n ≤ at) ⊎ (at + length src ≤ p)
      → slice (memcpy dst at src) p n ≡ slice dst p n
  slice-memcpy_beside p n inside beside =
      slice_ext (memcpy dst at src) dst p p n (omega (arith, inside, length-memcpy dst at src fits))
        inside
        (λ i i_lt. elim beside [
          | inl before ↦
              get_elem?-memcpy_before dst at src fits (p + i) (omega (arith, before, i_lt))
          | inr after ↦ get_elem?-memcpy_after dst at src fits (p + i) (omega (arith, after))
        ])

  pub slice-memcpy_same : slice (memcpy dst at src) at (length src) ≡ src
  slice-memcpy_same =
      slice_ext (memcpy dst at src) src at 0 (length src)
        (omega (arith, fits, length-memcpy dst at src fits)) (omega arith)
        (λ i i_lt.
          get_elem?-memcpy_in dst at src fits (at + i) (omega arith) (omega (arith, i_lt))
          ∙ ap (get_elem? src) (omega arith))
      ∙ take-all (length src) src (omega arith)

-- A slice of a slice, and of the front of a list.
pub slice-slice :
    (xs : List ℕ) (p n q m : ℕ)
    → q + m ≤ n
    → p + n ≤ length xs
    → slice (slice xs p n) q m ≡ slice xs (p + q) m
slice-slice xs p n q m within inside =
    slice_ext (slice xs p n) xs q (p + q) m (omega (arith, within, length-slice xs p n inside))
      (omega (arith, within, inside))
      (λ i i_lt.
        get_elem?-slice xs p n (q + i) (omega (arith, within, i_lt))
        ∙ ap (get_elem? xs) (omega arith))

pub slice-take :
    (xs : List ℕ) (p n m : ℕ) → p + n ≤ m → m ≤ length xs → slice (take m xs) p n ≡ slice xs p n
slice-take xs p n m within inside =
    slice_ext (take m xs) xs p p n (omega (arith, within, inside, length-take m xs))
      (omega (arith, within, inside))
      (λ i i_lt. get_elem?-take m xs (p + i) (omega (arith, within, i_lt)))

-- Two slices that follow each other.
pub slice-add : (xs : List ℕ) (p n m : ℕ) → slice xs p n ++ slice xs (p + n) m ≡ slice xs p (n + m)
slice-add xs p n m =
    ap (λ ys. slice xs p n ++ take m ys) (sym (drop-drop p n xs)) ∙ take-add n m (drop p xs)

-- A slice behind a front, and one at the start of a list.
module _ (front rest : List ℕ) where
  pub slice-append_add : (p n : ℕ) → slice (front ++ rest) (length front + p) n ≡ slice rest p n
  slice-append_add p n =
      ap (take n)
        (sym (drop-drop (length front) p (front ++ rest)) ∙ ap (drop p) (drop-append front))
    where
      drop-append : (xs : List ℕ) → drop (length xs) (xs ++ rest) ≡ rest
      drop-append [] = refl
      drop-append (x ∷ xs) = drop-append xs

  pub slice-append_front : (n : ℕ) → n ≤ length front → slice (front ++ rest) 0 n ≡ take n front
  slice-append_front n within = take-append_le n front rest within

-- 256 ^ n
abbrev pub limit_of : ℕ → ℕ
limit_of zero = 1
limit_of (suc n) = limit_of n * 256

pub le_value-le_bytes : (n x : ℕ) → x < limit_of n → le_value (le_bytes n x) ≡ x
le_value-le_bytes zero x h = omega (arith, h)
le_value-le_bytes (suc n) x h =
    let rest =
      le_value-le_bytes n (x / 256)
        ((div-lt_iff_lt-mul {k = 256} {x = x} {y = limit_of n} (omega arith)).1 h) in
    omega (arith, rest, div-add-mod' x 256)
