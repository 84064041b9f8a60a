-- ===== src/Scm/State.antt =====
-- The heap of p3/scm.c in order: the blocks, the count in the file, and the unwritten rest.
use jitcompilation.Prelude.Bytes.{memcpy, slice, le_value, slice-memcpy_beside, length-memcpy}
use jitcompilation.Prelude.{ℕ, ◌+◌, ◌^◌, ◌≤◌, ◌<◌, ◌≡◌, inl, inr, sym, ap, ◌∙◌, List, length, arith}
use jitcompilation.Scm.Heap.{Scm, head_len, word_len}
use jitcompilation.Scm.Blocks.{Block, BlocksAt}
use jitcompilation.Scm.Fit.{Blank}

-- The heap of a mapping that has room for its count.
pub record IsHeap (scm : Scm) (blocks : List Block) : Type 0 where
  pub whole : scm.capacity ≡ length scm.bytes
  pub small : scm.capacity < 2 ^ 64
  pub inside : word_len + scm.utilized ≤ length scm.bytes
  pub count : le_value (slice scm.bytes 0 word_len) ≡ scm.utilized
  pub blocks_at : BlocksAt scm.bytes 0 blocks scm.utilized
  pub blank : Blank scm scm.utilized

-- A write at or behind a block's flag, and before `e`, keeps what is behind `e` unwritten.
Blank-memcpy :
    (scm : Scm) (u e at : ℕ) (src : List ℕ)
    → at + length src ≤ length scm.bytes
    → scm.capacity ≡ length scm.bytes
    → at + length src ≤ word_len + e + 2
    → u ≤ e
    → Blank scm u
    → Blank (record scm { bytes = memcpy scm.bytes at src }) e
Blank-memcpy scm u e at src fits whole low later blank p from inside =
    ap le_value (
      slice-memcpy_beside scm.bytes at src fits (word_len + p + 2) 8 (omega (arith, inside, whole))
        (inr (omega (arith, low, from))))
    ∙ blank p (omega (arith, from, later)) inside

-- A heap after the flag of a block is written.
pub mark-IsHeap :
    (scm : Scm) (blocks blocks' : List Block) (h : ℕ) (src : List ℕ)
    → length src ≡ 2
    → IsHeap scm blocks
    → h + head_len ≤ scm.utilized
    → BlocksAt (memcpy scm.bytes (word_len + h) src) 0 blocks' scm.utilized
    → IsHeap (record scm { bytes = memcpy scm.bytes (word_len + h) src }) blocks'
mark-IsHeap scm blocks blocks' h src two heap high blocks_at' =
    let room : word_len + h + length src ≤ length scm.bytes =
      omega (arith, two, high, heap.inside) in
    let same = length-memcpy scm.bytes (word_len + h) src room in
    record {
      whole = heap.whole ∙ sym same;
      small = heap.small;
      inside = omega (arith, same, heap.inside);
      count =
          ap le_value (
            slice-memcpy_beside scm.bytes (word_len + h) src room 0 word_len
              (omega (arith, heap.inside)) (inl (omega arith)))
          ∙ heap.count;
      blocks_at = blocks_at';
      blank =
          Blank-memcpy scm scm.utilized scm.utilized (word_len + h) src room heap.whole
            (omega (arith, two, high)) (omega arith) heap.blank;
    }
