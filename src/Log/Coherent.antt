-- ===== src/Log/Coherent.antt =====
-- The read cache of p4/logfs.c and the device: every valid element has the bytes of its block.
use jitcompilation.Prelude.{
  ℕ, zero, suc, ◌+◌, ◌*◌, ◌/◌, ◌%◌, ◌≤◌, ◌<◌, ◌≡◌, ◌≢◌, ◌⊎◌, inl, inr, refl, sym, ◌∙◌, subst, Bool,
  true, false, ◌&&◌, some, List, [], ◌∷◌, length, map, set, ◌==◌, Bool-cases, dec_lt, arith,
}
use native.Mathlib.Nat.{div-add-mod', suc-mul, mul-le-mul_right, lt_of_mul-lt-mul_right}
use jitcompilation.Prelude.Bytes.{memcpy, slice, slice-memcpy_beside, length-memcpy}
use jitcompilation.Log.Cache.{CacheElem, first_match, drop_elem}

-- Blocks begin at multiples of their size.
pub quotient : (n blk : ℕ) → n % blk ≡ 0 → n / blk * blk ≡ n
quotient n blk e = omega (arith, div-add-mod' n blk, e)

pub block_after : (m n blk : ℕ) → m % blk ≡ 0 → n % blk ≡ 0 → m < n → m + blk ≤ n
block_after m n blk e e' less =
    let more =
      lt_of_mul-lt-mul_right blk {m = m / blk} {n = n / blk}
        (omega (arith, less, quotient m blk e, quotient n blk e')) in
    let next = mul-le-mul_right {m = suc (m / blk)} {n = n / blk} blk (omega (arith, more)) in
    omega (arith, next, suc-mul (m / blk) blk, quotient m blk e, quotient n blk e')

-- The bytes of one element are those of its block.
pub record IsFresh (bytes : List ℕ) (blk : ℕ) (elem : CacheElem) : Type 0 where
  pub aligned : elem.begin_offset % blk ≡ 0
  pub within : elem.begin_offset + blk ≤ length bytes
  pub same : elem.data_bytes ≡ slice bytes elem.begin_offset blk

pub data Coherent (bytes : List ℕ) (blk : ℕ) : List CacheElem → Type 0 where
  no_elem : Coherent bytes blk []
  with_elem :
      {elem : CacheElem} {cache : List CacheElem}
      → (elem.valid ≡ true → IsFresh bytes blk elem)
      → Coherent bytes blk cache
      → Coherent bytes blk (elem ∷ cache)

both_hold : (a b : Bool) → (a && b) ≡ true → (a ≡ true) × (b ≡ true)
both_hold true true e = (refl, refl)
both_hold true false e = absurd (cc e)
both_hold false b e = absurd (cc e)

and_false : (b : Bool) → (b && false) ≡ false
and_false true = refl
and_false false = refl

module _ (elem : CacheElem) (cache : List CacheElem) (offset : ℕ) where
  matched :
      ((offset == elem.begin_offset) && elem.valid) ≡ true
      → first_match (elem ∷ cache) offset ≡ some elem
  matched e = rw e refl

  skipped :
      ((offset == elem.begin_offset) && elem.valid) ≡ false
      → first_match (elem ∷ cache) offset ≡ first_match cache offset
  skipped e = rw e refl

pub first_match-IsFresh :
    {bytes : List ℕ} {blk : ℕ} {cache : List CacheElem}
    → Coherent bytes blk cache
    → (offset : ℕ) {elem : CacheElem} → first_match cache offset ≡ some elem
    → (elem.begin_offset ≡ offset) × IsFresh bytes blk elem
first_match-IsFresh no_elem offset found = absurd (cc found)
first_match-IsFresh {bytes} {blk} (with_elem {elem = elem} {cache = cache} fresh rest) offset
      found =
    elim (Bool-cases ((offset == elem.begin_offset) && elem.valid)) [
      | inl match ↦
          let both = both_hold (offset == elem.begin_offset) elem.valid match in
          subst (λ e. (e.begin_offset ≡ offset) × IsFresh bytes blk e)
            (cc (matched elem cache offset match, found)) (ground (arith, both.0), fresh both.1)
      | inr other ↦ first_match-IsFresh rest offset (sym (skipped elem cache offset other) ∙ found)
    ]

pub set-Coherent :
    {bytes : List ℕ} {blk : ℕ} {cache : List CacheElem}
    → Coherent bytes blk cache
    → (i : ℕ) (elem : CacheElem) → IsFresh bytes blk elem
    → Coherent bytes blk (set cache i elem)
set-Coherent no_elem i elem fresh = no_elem
set-Coherent (with_elem old rest) zero elem fresh = with_elem (λ _. fresh) rest
set-Coherent (with_elem old rest) (suc i) elem fresh =
    with_elem old (set-Coherent rest i elem fresh)

-- A block is written, and its element dropped.
module _ (bytes : List ℕ) (blk off : ℕ) (buf : List ℕ) (one : length buf ≡ blk)
    (aligned : off % blk ≡ 0) (fits : off + blk ≤ length bytes) where
  IsFresh-write :
      (elem : CacheElem)
      → elem.begin_offset ≢ off
      → IsFresh bytes blk elem
      → IsFresh (memcpy bytes off buf) blk elem
  IsFresh-write elem other fresh = record {
    aligned = fresh.aligned;
    within = omega (arith, fresh.within, length-memcpy bytes off buf (omega (arith, one, fits)));
    same =
        fresh.same
        ∙ sym (
            slice-memcpy_beside bytes off buf (omega (arith, one, fits)) elem.begin_offset blk
              fresh.within beside);
  }
    where
      beside : (elem.begin_offset + blk ≤ off) ⊎ (off + length buf ≤ elem.begin_offset)
      beside = elim (dec_lt elem.begin_offset off) [
        | yes before ↦ inl (block_after elem.begin_offset off blk fresh.aligned aligned before)
        | no after ↦
            let next =
              block_after off elem.begin_offset blk aligned fresh.aligned
                (omega (arith, after, other)) in
            inr (omega (arith, next, one))
      ]

  kept :
      (elem : CacheElem) (elem_size : ℕ)
      → (elem.valid ≡ true → IsFresh bytes blk elem)
      → (drop_elem elem_size off elem).valid ≡ true
      → IsFresh (memcpy bytes off buf) blk (drop_elem elem_size off elem)
  kept elem elem_size fresh valid = elim (Bool-cases elem.valid) [
    | inr unused ↦
        let invalid : ((off == elem.begin_offset) && elem.valid) ≡ false =
          rw unused (and_false (off == elem.begin_offset)) in
        absurd (cc (rw invalid at valid, unused))
    | inl used ↦ elim (Bool-cases (off == elem.begin_offset)) [
      | inl match ↦ absurd (cc (rw (match, used) at valid))
      | inr other ↦ rw other (IsFresh-write elem (λ e. ground (arith, e, other)) (fresh used))
    ]
  ]

  pub drop-Coherent :
      {cache : List CacheElem}
      → Coherent bytes blk cache
      → (elem_size : ℕ) → Coherent (memcpy bytes off buf) blk (map (drop_elem elem_size off) cache)
  drop-Coherent no_elem elem_size = no_elem
  drop-Coherent (with_elem {elem = elem} fresh rest) elem_size =
      with_elem (kept elem elem_size fresh) (drop-Coherent rest elem_size)
