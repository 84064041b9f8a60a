-- ===== src/Scm/Fit.antt =====
-- The walk of scm_malloc of p3/scm.c: it finds the first free block that is large enough.
use jitcompilation.Prelude.Bytes.{memcpy, le_bytes}
use jitcompilation.Prelude.{
  ℕ, zero, suc, ◌+◌, ◌≤◌, ◌<◌, ◌≡◌, ◌⊎◌, inl, inr, refl, sym, ap, ◌∙◌, Bool, true, false, ◌&&◌,
  Option, none, some, List, [], ◌∷◌, length, ltb, leb, ◌==◌, if◌then◌else◌, Bool-cases, arith,
}
use jitcompilation.Scm.Heap.{
  Scm, Run, returns, bind_run, store, head_len, word_len, flag_at, size_at, first_fit,
}
use jitcompilation.Scm.Blocks.{
  Block, BlocksAt, no_block, block_at, BlocksAt-le, BlocksAt-mark, flag_at-memcpy, size_at-memcpy,
  flag_of,
}

-- The first free block of `n` bytes or more, marked as used, with its place.
abbrev pub behind : Block → Option (ℕ × List Block) → Option (ℕ × List Block)
behind b none = none
behind b (some (h, blocks)) = some (h, b ∷ blocks)

abbrev pub fit : ℕ → ℕ → ℕ → List Block → Option (ℕ × List Block)
fit capacity n p [] = none
fit capacity n p ((true, size) ∷ blocks) =
    let rest = behind (true, size) (fit capacity n (p + head_len + size) blocks) in
    if ltb (p + head_len + word_len) capacity then rest else none
fit capacity n p ((false, size) ∷ blocks) =
    let rest = behind (false, size) (fit capacity n (p + head_len + size) blocks) in
    if ltb (p + head_len + word_len) capacity
    then if leb n size then some (p, (true, size) ∷ blocks) else rest
    else none

-- A block that was found, taken.
abbrev pub take_at : Scm → ℕ → Scm
take_at scm h = record scm { bytes = memcpy scm.bytes (word_len + h) (le_bytes 2 1) }

abbrev pub found : Scm → Option (ℕ × List Block) → Run (Option ℕ × Scm)
found scm none = returns (none, scm)
found scm (some (h, blocks)) = returns (some (h + head_len), take_at scm h)

-- A store inside of the file.
pub store_lem :
    (scm : Scm) (at : ℕ) (src : List ℕ)
    → at + length src ≤ length scm.bytes
    → store scm at src ≡ returns (record scm { bytes = memcpy scm.bytes at src })
store_lem scm at src fits =
    let room : leb (at + length src) (length scm.bytes) ≡ true = ground (arith, fits) in
    rw room refl

-- Nothing is written from `e` on.
abbrev pub Blank : Scm → ℕ → Type 0
Blank scm e = (p : ℕ) → e ≤ p → p + head_len + word_len < scm.capacity → size_at scm.bytes p ≡ 0

found-behind :
    (scm : Scm) (b : Block) (o : Option (ℕ × List Block)) → found scm (behind b o) ≡ found scm o
found-behind scm b none = refl
found-behind scm b (some (h, blocks)) = refl

module _ (scm : Scm) (n : ℕ) (some_bytes : 0 < n) (whole : scm.capacity ≡ length scm.bytes) where
  -- Past the last block the walk finds nothing.
  walk_to_end :
      (e : ℕ)
      → Blank scm e
      → (rounds p : ℕ) → e ≤ p
      → scm.capacity < p + rounds
      → 0 < rounds
      → first_fit rounds scm n p ≡ returns (none, scm)
  unfolding first_fit
  walk_to_end e blank zero p from enough more = absurd (omega (arith, more))
  walk_to_end e blank (suc rounds) p from enough more =
      elim (Bool-cases (ltb (p + head_len + word_len) scm.capacity)) [
        | inl inside ↦
            let p_in : p + head_len + word_len < scm.capacity = ground (arith, inside) in
            let empty = blank p from p_in in
            let small : leb n 0 ≡ false = ground (arith, some_bytes) in
            let no : ((flag_at scm.bytes p == 0) && leb n (size_at scm.bytes p)) ≡ false =
              ground (arith, empty, some_bytes) in
            rw (inside, no)
              (walk_to_end e blank rounds (p + head_len + size_at scm.bytes p) (omega (arith, from))
                (omega (arith, enough)) (omega (arith, enough, p_in)))
        | inr outside ↦ rw outside refl
      ]

  pub first_fit-fit :
      {p e : ℕ} {blocks : List Block}
      → BlocksAt scm.bytes p blocks e
      → Blank scm e
      → (rounds : ℕ) → scm.capacity < p + rounds
      → 0 < rounds
      → first_fit rounds scm n p ≡ found scm (fit scm.capacity n p blocks)
  unfolding first_fit
  first_fit-fit (no_block {p}) blank rounds enough more =
      walk_to_end p blank rounds p (omega arith) enough more
  first_fit-fit (block_at f s rest) blank zero enough more = absurd (omega (arith, more))
  first_fit-fit (block_at {p} {e} {size} {in_use = true} {blocks} f s rest) blank (suc rounds)
        enough more =
      elim (Bool-cases (ltb (p + head_len + word_len) scm.capacity)) [
        | inl inside ↦
            let p_in : p + head_len + word_len < scm.capacity = ground (arith, inside) in
            let step =
              first_fit-fit rest blank rounds (omega (arith, enough))
                (omega (arith, enough, p_in)) in
            rw (inside, f, s)
              (step
                ∙ sym (
                    found-behind scm (true, size)
                      (fit scm.capacity n (p + head_len + size) blocks)))
        | inr outside ↦ rw outside refl
      ]
  first_fit-fit (block_at {p} {e} {size} {in_use = false} {blocks} f s rest) blank (suc rounds)
        enough more =
      elim (Bool-cases (ltb (p + head_len + word_len) scm.capacity)) [
        | inl inside ↦
            let p_in : p + head_len + word_len < scm.capacity = ground (arith, inside) in
            let step =
              first_fit-fit rest blank rounds (omega (arith, enough))
                (omega (arith, enough, p_in)) in
            elim (Bool-cases (leb n size)) [
              | inl large ↦
                  let room =
                    store_lem scm (word_len + p) (le_bytes 2 1) (omega (arith, p_in, whole)) in
                  rw (inside, f, s, large)
                    (ap (λ r. bind_run r (λ scm'. returns (some (p + head_len), scm'))) room)
              | inr small ↦
                  rw (inside, f, s, small)
                    (step
                      ∙ sym (
                          found-behind scm (false, size)
                            (fit scm.capacity n (p + head_len + size) blocks)))
            ]
        | inr outside ↦ rw outside refl
      ]

-- The blocks after the one that was found is taken, and where it lies.
module _ (bytes : List ℕ) (capacity n : ℕ) where
  pub record Taken (p e h : ℕ) (blocks : List Block) : Type 0 where
    pub low : p ≤ h
    pub high : h + head_len ≤ e
    pub blocks_at : BlocksAt (memcpy bytes (word_len + h) (le_bytes 2 1)) p blocks e

  kept_front :
      {p e h size : ℕ} {in_use : Bool} {blocks : List Block}
      → flag_at bytes p ≡ flag_of in_use
      → size_at bytes p ≡ size
      → word_len + e ≤ length bytes
      → Taken (p + head_len + size) e h blocks
      → Taken p e h ((in_use, size) ∷ blocks)
  kept_front {p} {e} {h} {size} {in_use} {blocks} f s inside t =
      let room : word_len + h + length (le_bytes 2 1) ≤ length bytes =
        omega (arith, t.high, inside) in
      let head_in : word_len + p + head_len ≤ length bytes = omega (arith, t.low, t.high, inside) in
      let before : (word_len + p + head_len ≤ word_len + h)
          ⊎ (word_len + h + length (le_bytes 2 1) ≤ word_len + p) =
        inl (omega (arith, t.low)) in
      record {
        low = omega (arith, t.low);
        high = t.high;
        blocks_at =
            block_at (flag_at-memcpy bytes (word_len + h) (le_bytes 2 1) room p head_in before ∙ f)
              (size_at-memcpy bytes (word_len + h) (le_bytes 2 1) room p head_in before ∙ s)
              t.blocks_at;
      }

  here-Taken :
      {p e size : ℕ} {blocks : List Block}
      → size_at bytes p ≡ size
      → word_len + e ≤ length bytes
      → BlocksAt bytes (p + head_len + size) blocks e
      → Taken p e p ((true, size) ∷ blocks)
  here-Taken {p} {e} {size} {blocks} s inside rest =
      let after = BlocksAt-le rest in
      record {
        low = omega arith;
        high = omega (arith, after);
        blocks_at = BlocksAt-mark true (le_bytes 2 1) refl refl s inside rest;
      }

  abbrev pub TakenIf : ℕ → ℕ → Option (ℕ × List Block) → Type 0
  TakenIf p e none = Unit
  TakenIf p e (some (h, blocks)) = Taken p e h blocks

  behind-TakenIf :
      (p e size : ℕ) (in_use : Bool)
      → flag_at bytes p ≡ flag_of in_use
      → size_at bytes p ≡ size
      → word_len + e ≤ length bytes
      → (o : Option (ℕ × List Block)) → TakenIf (p + head_len + size) e o
      → TakenIf p e (behind (in_use, size) o)
  behind-TakenIf p e size in_use f s inside none t = t
  behind-TakenIf p e size in_use f s inside (some (h, blocks)) t = kept_front f s inside t

  pub fit-TakenIf :
      {p e : ℕ} {blocks : List Block}
      → BlocksAt bytes p blocks e
      → word_len + e ≤ length bytes
      → TakenIf p e (fit capacity n p blocks)
  fit-TakenIf no_block inside = tt
  fit-TakenIf (block_at {p} {e} {size} {in_use = true} {blocks} f s rest) inside =
      let later =
        behind-TakenIf p e size true f s inside (fit capacity n (p + head_len + size) blocks)
          (fit-TakenIf rest inside) in
      elim (Bool-cases (ltb (p + head_len + word_len) capacity)) [
        | inl before ↦ rw before later
        | inr behind ↦ rw behind tt
      ]
  fit-TakenIf (block_at {p} {e} {size} {in_use = false} {blocks} f s rest) inside =
      let later =
        behind-TakenIf p e size false f s inside (fit capacity n (p + head_len + size) blocks)
          (fit-TakenIf rest inside) in
      elim (Bool-cases (ltb (p + head_len + word_len) capacity)) [
        | inl before ↦ elim (Bool-cases (leb n size)) [
          | inl large ↦ rw (before, large) (here-Taken s inside rest)
          | inr small ↦ rw (before, small) later
        ]
        | inr behind ↦ rw behind tt
      ]
