-- ===== src/Scm/Push.antt =====
-- The three stores of scm_malloc of p3/scm.c for a new block.
use jitcompilation.Prelude.Bytes.{
  memcpy, slice, le_value, slice-memcpy_same, slice-memcpy_beside, length-memcpy,
}
use jitcompilation.Prelude.{
  ℕ, ◌+◌, ◌≤◌, ◌≡◌, inl, inr, refl, sym, ap, ◌∙◌, subst, true, Option, some, List, [], ◌∷◌, ◌++◌,
  length, leb, arith,
}
use jitcompilation.Scm.Heap.{Scm, returns, bind_run, store, head_len, word_len, flag_at, size_at}
use jitcompilation.Scm.Blocks.{
  Block, BlocksAt, no_block, block_at, BlocksAt-memcpy, BlocksAt-append,
}
use jitcompilation.Scm.Fit.{Blank}
use jitcompilation.Scm.State.{IsHeap}

-- What three stores leave: the flag and the size of a new block behind the others, and the count.
module _ (scm : Scm) (blocks : List Block) (n size : ℕ) (heap : IsHeap scm blocks)
    (total : size ≡ scm.utilized + head_len + n) (room : word_len + size ≤ scm.capacity)
    (flag num count : List ℕ) (flag_size : length flag ≡ 2) (num_size : length num ≡ 8)
    (count_size : length count ≡ 8) (flag_value : le_value flag ≡ 1) (num_value : le_value num ≡ n)
    (count_value : le_value count ≡ size) where
  abbrev pub flagged : Scm
  flagged = record scm { bytes = memcpy scm.bytes (word_len + scm.utilized) flag }

  abbrev pub sized : Scm
  sized = record scm { bytes = memcpy flagged.bytes (word_len + scm.utilized + 2) num }

  abbrev pub counted : Scm
  counted = record scm { utilized = size; bytes = memcpy sized.bytes 0 count }

  fits_flag : word_len + scm.utilized + length flag ≤ length scm.bytes
  fits_flag = omega (arith, flag_size, total, room, heap.whole)

  flagged_size : length flagged.bytes ≡ length scm.bytes
  flagged_size = length-memcpy scm.bytes (word_len + scm.utilized) flag fits_flag

  fits_num : word_len + scm.utilized + 2 + length num ≤ length flagged.bytes
  fits_num = omega (arith, num_size, total, room, heap.whole, flagged_size)

  sized_size : length sized.bytes ≡ length scm.bytes
  sized_size = length-memcpy flagged.bytes (word_len + scm.utilized + 2) num fits_num ∙ flagged_size

  fits_count : 0 + length count ≤ length sized.bytes
  fits_count = omega (arith, count_size, sized_size, room, heap.whole)

  counted_size : length counted.bytes ≡ length scm.bytes
  counted_size = length-memcpy sized.bytes 0 count fits_count ∙ sized_size

  pub push_steps :
      bind_run {B = Option ℕ × Scm} (store scm (word_len + scm.utilized) flag) (λ a.
        bind_run {B = Option ℕ × Scm} (store a (word_len + scm.utilized + 2) num) (λ b.
          bind_run {B = Option ℕ × Scm}
            (store (record b { utilized = size }) 0 count)
            (λ c. returns (some (scm.utilized + head_len), c))))
      ≡ returns (some (scm.utilized + head_len), counted)
  push_steps =
      let one : leb (word_len + scm.utilized + length flag) (length scm.bytes) ≡ true =
        ground (arith, fits_flag) in
      let two : leb (word_len + scm.utilized + 2 + length num) (length flagged.bytes) ≡ true =
        ground (arith, fits_num) in
      let three : leb (0 + length count) (length sized.bytes) ≡ true = ground (arith, fits_count) in
      rw (one, two, three) refl

  new_flag : flag_at counted.bytes scm.utilized ≡ 1
  new_flag =
      ap le_value (
        slice-memcpy_beside sized.bytes 0 count fits_count (word_len + scm.utilized) 2
          (omega (arith, sized_size, room, heap.whole, total)) (inr (omega (arith, count_size)))
        ∙ slice-memcpy_beside flagged.bytes (word_len + scm.utilized + 2) num fits_num
            (word_len + scm.utilized) 2 (omega (arith, flagged_size, room, heap.whole, total))
            (inl (omega arith))
        ∙ ap (slice flagged.bytes (word_len + scm.utilized)) (sym flag_size)
        ∙ slice-memcpy_same scm.bytes (word_len + scm.utilized) flag fits_flag)
      ∙ flag_value

  new_size : size_at counted.bytes scm.utilized ≡ n
  new_size =
      ap le_value (
        slice-memcpy_beside sized.bytes 0 count fits_count (word_len + scm.utilized + 2) 8
          (omega (arith, sized_size, room, heap.whole, total)) (inr (omega (arith, count_size)))
        ∙ ap (slice sized.bytes (word_len + scm.utilized + 2)) (sym num_size)
        ∙ slice-memcpy_same flagged.bytes (word_len + scm.utilized + 2) num fits_num)
      ∙ num_value

  old_blocks : BlocksAt counted.bytes 0 blocks scm.utilized
  old_blocks =
      let one =
        BlocksAt-memcpy heap.blocks_at (word_len + scm.utilized) flag fits_flag heap.inside
          (inl (omega arith)) in
      let two =
        BlocksAt-memcpy one (word_len + scm.utilized + 2) num fits_num
          (omega (arith, flagged_size, heap.inside)) (inl (omega arith)) in
      BlocksAt-memcpy two 0 count fits_count (omega (arith, sized_size, heap.inside))
        (inr (omega (arith, count_size)))

  new_block : BlocksAt counted.bytes scm.utilized ((true, n) ∷ []) size
  new_block =
      block_at new_flag new_size (
        subst (λ e. BlocksAt counted.bytes (scm.utilized + head_len + n) [] e) (sym total) no_block)

  counted-Blank : Blank counted size
  counted-Blank p from inside =
      let same = heap.whole in
      ap le_value (
        slice-memcpy_beside sized.bytes 0 count fits_count (word_len + p + 2) 8
          (omega (arith, sized_size, same, inside)) (inr (omega (arith, count_size)))
        ∙ slice-memcpy_beside flagged.bytes (word_len + scm.utilized + 2) num fits_num
            (word_len + p + 2) 8 (omega (arith, flagged_size, same, inside))
            (inr (omega (arith, num_size, total, from)))
        ∙ slice-memcpy_beside scm.bytes (word_len + scm.utilized) flag fits_flag (word_len + p + 2)
            8 (omega (arith, same, inside)) (inr (omega (arith, flag_size, total, from))))
      ∙ heap.blank p (omega (arith, total, from)) inside

  pub counted-IsHeap : IsHeap counted (blocks ++ ((true, n) ∷ []))
  counted-IsHeap = record {
    whole = heap.whole ∙ sym counted_size;
    small = heap.small;
    inside = omega (arith, counted_size, room, heap.whole);
    count =
        ap le_value (
          ap (slice counted.bytes 0) (sym count_size)
          ∙ slice-memcpy_same sized.bytes 0 count fits_count)
        ∙ count_value;
    blocks_at = BlocksAt-append old_blocks new_block;
    blank = counted-Blank;
  }
