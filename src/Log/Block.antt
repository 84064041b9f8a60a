-- ===== src/Log/Block.antt =====
-- The bytes that a round of write_buffer_dequeue of p4/logfs.c takes out, and the buffer that it leaves.
use jitcompilation.Prelude.Bytes.{sub_size}
use jitcompilation.Prelude.{
  ℕ, ◌+◌, ◌-◌, ◌%◌, ◌^◌, ◌≤◌, ◌<◌, ◌≡◌, inl, inr, refl, sym, ap, ◌∙◌, Bool, true, false, List, ◌++◌,
  length, length-drop, get_elem?, take, drop, ltb, leb, ◌==◌, if◌then◌else◌, Bool-cases, arith,
}
use native.Mathlib.Nat.{mod-lt, mod-eq_of_lt, mod-add-mod}
use jitcompilation.Prelude.Bytes.{slice, zero_padded, slice_ext, take-add, get_elem?-drop}
use jitcompilation.Log.Buffer.{WriteBuffer, Dequeued, block, round_up, take_out}
use jitcompilation.Log.Window.{Folded, mod_once, nth_place, Holds}
use jitcompilation.Log.Heads.{Fits, place_once, Lands-mod}

round_up_ge : (n blk : ℕ) → 0 < blk → n + blk < 2 ^ 64 → n ≤ round_up n blk
round_up_ge n blk some_bytes small =
    let rest = mod-lt n {m = blk} some_bytes in
    let one = mod-eq_of_lt {n = n} {m = 2 ^ 64} (omega (arith, small)) in
    let other = mod-eq_of_lt {n = n + (blk - n % blk)} {m = 2 ^ 64} (omega (arith, small)) in
    ground (arith, rest, one, other)

module _ (wb : WriteBuffer) (xs : List ℕ) (h : Holds wb xs) (blk : ℕ) (fit : Fits wb blk) (n : ℕ)
    (n_le : n ≤ length xs) (n_lt : n + 1 < wb.size) (n_some : 0 < n) where
  shape : (i : ℕ) → i < wb.size → Folded (wb.tail + 1 + i) wb.size
  shape = place_once wb xs h blk fit

  first_once : Folded (wb.tail + 1) wb.size
  first_once = mod_once (wb.tail + 1) wb.size (omega (arith, h.tail_in, n_lt))

  behind : ℕ
  behind = (wb.tail + 1) % wb.size

  straight_slice : leb wb.tail (nth_place wb n) ≡ true → slice wb.buffer behind n ≡ take n xs
  unfolding behind
  straight_slice e =
      let facts = shape n (omega (arith, n_lt)) in
      slice_ext wb.buffer xs behind 0 n (ground (arith, facts, first_once, e, h.extent, h.tail_in))
        (omega (arith, n_le))
        (λ i inside.
          let here = shape i (omega (arith, n_lt, inside)) in
          ap (get_elem? wb.buffer) (ground (arith, facts, first_once, here, e, inside, h.tail_in))
          ∙ h.at i (omega (arith, inside, n_le))
          ∙ ap (get_elem? xs) (omega arith))

  to_end : ℕ
  to_end = wb.size - wb.tail - 1

  end_slice :
      leb wb.tail (nth_place wb n) ≡ false → slice wb.buffer behind to_end ≡ slice xs 0 to_end
  unfolding behind to_end
  end_slice e =
      let facts = shape n (omega (arith, n_lt)) in
      slice_ext wb.buffer xs behind 0 to_end (ground (arith, first_once, h.extent, h.tail_in))
        (ground (arith, facts, e, n_le, h.tail_in))
        (λ i inside.
          let here = shape i (omega (arith, inside)) in
          ap (get_elem? wb.buffer) (ground (arith, first_once, here, inside, h.tail_in))
          ∙ h.at i (ground (arith, facts, e, inside, n_le, h.tail_in))
          ∙ ap (get_elem? xs) (omega arith))

  start_slice :
      leb wb.tail (nth_place wb n) ≡ false
      → slice wb.buffer 0 (n - to_end) ≡ slice xs to_end (n - to_end)
  unfolding to_end
  start_slice e =
      let facts = shape n (omega (arith, n_lt)) in
      slice_ext wb.buffer xs 0 to_end (n - to_end) (ground (arith, h.extent, n_lt))
        (ground (arith, facts, e, n_le, h.tail_in))
        (λ i inside.
          let here = shape (to_end + i) (omega (arith, inside, n_lt)) in
          ap (get_elem? wb.buffer) (ground (arith, here, inside, n_lt, h.tail_in))
          ∙ h.at (to_end + i) (omega (arith, inside, n_le)))

  around_slice :
      leb wb.tail (nth_place wb n) ≡ false
      → slice wb.buffer behind to_end ++ take (n - to_end) wb.buffer ≡ take n xs
  unfolding to_end
  around_slice e =
      let facts = shape n (omega (arith, n_lt)) in
      ap (λ ys. ys ++ take (n - to_end) wb.buffer) (end_slice e)
      ∙ ap (λ ys. take to_end xs ++ ys) (start_slice e)
      ∙ take-add to_end (n - to_end) xs
      ∙ ap (λ k. take k xs) (ground (arith, facts, e, n_lt, h.tail_in))

  -- Without a byte at the start, 0 - 1 in 64 bits is the last nth_place of the ring.
  around_tail :
      leb wb.tail (nth_place wb n) ≡ false
      → sub_size (n - to_end) 1 % wb.size ≡ (wb.tail + n) % wb.size
  unfolding to_end
  around_tail e =
      let facts = shape n (omega (arith, n_lt)) in
      let wrap = mod_once (n - to_end + 2 ^ 64 - 1) (2 ^ 64) (omega (arith, n_lt, fit.bounded)) in
      Lands-mod wb xs h blk fit (sub_size (n - to_end) 1) (wb.tail + n)
        (ground (arith, facts, wrap, e, n_lt, h.tail_in, fit.bounded))

  rounded : n ≤ round_up n blk
  rounded = round_up_ge n blk fit.some_bytes (omega (arith, n_lt, fit.larger, fit.bounded))

  abbrev taken : Bool → Dequeued
  taken dont_dequeue = block (zero_padded (take n xs) (round_up n blk)) (record wb {
    last_avail = if dont_dequeue then n else 0;
    tail = if dont_dequeue then wb.tail else (wb.tail + n) % wb.size;
  })

  pub take_out-taken :
      (dont_dequeue : Bool) → take_out wb (nth_place wb n) n blk dont_dequeue ≡ taken dont_dequeue
  unfolding behind to_end
  take_out-taken dont_dequeue =
      let filled : (blk == 0) ≡ false = ground (arith, fit.some_bytes) in
      let whole : ltb (round_up n blk) n ≡ false = ground (arith, rounded) in
      elim (Bool-cases (leb wb.tail (nth_place wb n))) [
        | inl e ↦ rw (e, straight_slice e, filled, whole) refl
        | inr e ↦ rw (e, around_slice e, around_tail e, filled) refl
      ]

  -- The bytes behind the new tail.
  pub taken-Holds : Holds (record wb { last_avail = 0; tail = (wb.tail + n) % wb.size }) (drop n xs)
  taken-Holds = record {
    extent = h.extent;
    tail_in = mod-lt (wb.tail + n) (omega (arith, n_lt));
    room = omega (arith, length-drop n xs, h.room);
    head_at =
        h.head_at
        ∙ ap (λ k. k % wb.size) (omega (arith, n_le, length-drop n xs))
        ∙ sym (further (length (drop n xs)));
    at = λ i inside.
        ap (get_elem? wb.buffer) (further i ∙ ap (λ k. k % wb.size) (omega arith))
        ∙ h.at (n + i) (omega (arith, inside, length-drop n xs))
        ∙ sym (get_elem?-drop n xs i);
  }
    where
      further :
          (i : ℕ) → ((wb.tail + n) % wb.size + 1 + i) % wb.size ≡ (wb.tail + n + (1 + i)) % wb.size
      further i = ap (λ k. k % wb.size) (omega arith) ∙ mod-add-mod (wb.tail + n) wb.size (1 + i)
