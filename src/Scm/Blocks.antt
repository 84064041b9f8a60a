-- ===== src/Scm/Blocks.antt =====
-- The bytes of the heap of p3/scm.c as blocks, one behind the other.
use jitcompilation.Prelude.Bytes.{memcpy, slice, le_value, slice-memcpy_beside, slice-memcpy_same}
use jitcompilation.Prelude.{
  ℕ, ◌+◌, ◌≤◌, ◌≡◌, ◌⊎◌, inl, inr, sym, ap, ◌∙◌, subst, Bool, true, false, List, [], ◌∷◌, ◌++◌,
  length, arith,
}
use jitcompilation.Scm.Heap.{head_len, word_len, flag_at, size_at}

-- Whether a block is in use, and its size.
abbrev pub Block : Type 0
Block = Bool × ℕ

abbrev pub flag_of : Bool → ℕ
flag_of true = 1
flag_of false = 0

-- The blocks from one place to another.
pub data BlocksAt (bytes : List ℕ) : ℕ → List Block → ℕ → Type 0 where
  no_block : {p : ℕ} → BlocksAt bytes p [] p
  block_at :
      {p e size : ℕ} {in_use : Bool} {blocks : List Block}
      → flag_at bytes p ≡ flag_of in_use
      → size_at bytes p ≡ size
      → BlocksAt bytes (p + head_len + size) blocks e
      → BlocksAt bytes p ((in_use, size) ∷ blocks) e

pub BlocksAt-le :
    {bytes : List ℕ} {p e : ℕ} {blocks : List Block} → BlocksAt bytes p blocks e → p ≤ e
BlocksAt-le no_block = omega arith
BlocksAt-le (block_at f s rest) = omega (arith, BlocksAt-le rest)

pub BlocksAt-append :
    {bytes : List ℕ} {p q e : ℕ} {front back : List Block}
    → BlocksAt bytes p front q
    → BlocksAt bytes q back e
    → BlocksAt bytes p (front ++ back) e
BlocksAt-append no_block back = back
BlocksAt-append (block_at f s rest) back = block_at f s (BlocksAt-append rest back)

-- A header beside what is written stays.
module _ (bytes : List ℕ) (at : ℕ) (src : List ℕ) (fits : at + length src ≤ length bytes) (p : ℕ)
    (inside : word_len + p + head_len ≤ length bytes)
    (beside : (word_len + p + head_len ≤ at) ⊎ (at + length src ≤ word_len + p)) where
  pub flag_at-memcpy : flag_at (memcpy bytes at src) p ≡ flag_at bytes p
  flag_at-memcpy = ap le_value (
      slice-memcpy_beside bytes at src fits (word_len + p) 2 (omega (arith, inside))
        (elim beside [ inl before ↦ inl (omega (arith, before)) | inr after ↦ inr after ]))

  pub size_at-memcpy : size_at (memcpy bytes at src) p ≡ size_at bytes p
  size_at-memcpy = ap le_value (
      slice-memcpy_beside bytes at src fits (word_len + p + 2) 8 (omega (arith, inside))
        (elim beside [
          | inl before ↦ inl (omega (arith, before))
          | inr after ↦ inr (omega (arith, after))
        ]))

-- Blocks beside what is written stay.
pub BlocksAt-memcpy :
    {bytes : List ℕ} {p e : ℕ} {blocks : List Block}
    → BlocksAt bytes p blocks e
    → (at : ℕ) (src : List ℕ) → at + length src ≤ length bytes
    → word_len + e ≤ length bytes
    → (word_len + e ≤ at) ⊎ (at + length src ≤ word_len + p)
    → BlocksAt (memcpy bytes at src) p blocks e
BlocksAt-memcpy no_block at src fits inside beside = no_block
BlocksAt-memcpy {bytes} (block_at {p} {e} {size} f s rest) at src fits inside beside =
    let behind = BlocksAt-le rest in
    let head_in : word_len + p + head_len ≤ length bytes = omega (arith, inside, behind) in
    let head_beside : (word_len + p + head_len ≤ at) ⊎ (at + length src ≤ word_len + p) =
      elim beside [ inl before ↦ inl (omega (arith, before, behind)) | inr after ↦ inr after ] in
    block_at (flag_at-memcpy bytes at src fits p head_in head_beside ∙ f)
      (size_at-memcpy bytes at src fits p head_in head_beside ∙ s)
      (BlocksAt-memcpy rest at src fits inside
        (elim beside [ inl before ↦ inl before | inr after ↦ inr (omega (arith, after)) ]))

-- The bytes that some blocks take.
abbrev pub extent : List Block → ℕ
extent [] = 0
extent ((in_use, size) ∷ blocks) = head_len + size + extent blocks

pub BlocksAt-split :
    (bytes : List ℕ) (p q e : ℕ) (front back : List Block)
    → q ≡ p + extent front
    → BlocksAt bytes p (front ++ back) e
    → BlocksAt bytes p front q × BlocksAt bytes q back e
BlocksAt-split bytes p q e [] back at all =
    let same : p ≡ q = omega (arith, at) in
    (
      subst (λ r. BlocksAt bytes p [] r) same no_block,
      subst (λ r. BlocksAt bytes r back e) same all,
    )
BlocksAt-split bytes p q e ((in_use, size) ∷ front) back at (block_at f s rest) =
    let (before, behind) =
      BlocksAt-split bytes (p + head_len + size) q e front back (omega (arith, at)) rest in
    (block_at f s before, behind)

-- A block whose flag is written.
pub BlocksAt-mark :
    {bytes : List ℕ} {p e size : ℕ} {blocks : List Block}
    → (in_use : Bool) (src : List ℕ) → length src ≡ 2
    → le_value src ≡ flag_of in_use
    → size_at bytes p ≡ size
    → word_len + e ≤ length bytes
    → BlocksAt bytes (p + head_len + size) blocks e
    → BlocksAt (memcpy bytes (word_len + p) src) p ((in_use, size) ∷ blocks) e
BlocksAt-mark {bytes} {p} {e} {size} in_use src two value s inside rest =
    let after = BlocksAt-le rest in
    let room : word_len + p + length src ≤ length bytes = omega (arith, two, after, inside) in
    block_at
      (ap le_value (
          ap (slice (memcpy bytes (word_len + p) src) (word_len + p)) (sym two)
          ∙ slice-memcpy_same bytes (word_len + p) src room)
        ∙ value)
      (ap le_value (
          slice-memcpy_beside bytes (word_len + p) src room (word_len + p + 2) 8
            (omega (arith, after, inside)) (inr (omega (arith, two))))
        ∙ s)
      (BlocksAt-memcpy rest (word_len + p) src room inside (inr (omega (arith, two))))
