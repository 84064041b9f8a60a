-- ===== src/Log/Heads.antt =====
-- The heads that write_buffer_dequeue of p4/logfs.c comes to: how many bytes wait behind each, and where
-- it moves back to.
use jitcompilation.Prelude.Bytes.{sub_size}
use jitcompilation.Prelude.{
  ℕ, ◌+◌, ◌-◌, ◌%◌, ◌^◌, ◌≤◌, ◌<◌, ◌≡◌, ◌⊎◌, inl, inr, sym, ap, ◌∙◌, List, dec_lt, arith,
}
use native.Mathlib.Nat.{mod-lt, mod-add-mod, add-mod_right}
use jitcompilation.Log.Buffer.{WriteBuffer, waiting, moved_back}
use jitcompilation.Log.Window.{Folded, mod_once, nth_place, Holds}

-- The ring is a power of two of bytes, larger than a block.
pub record Fits (wb : WriteBuffer) (blk : ℕ) : Type 0 where
  pub some_bytes : 0 < blk
  pub larger : blk + 1 < wb.size
  pub bounded : wb.size ≤ 2 ^ 63
  pub divides : (2 ^ 64) % wb.size ≡ 0

module _ (wb : WriteBuffer) (xs : List ℕ) (h : Holds wb xs) (blk : ℕ) (fit : Fits wb blk) where
  pub place_once : (n : ℕ) → n < wb.size → Folded (wb.tail + 1 + n) wb.size
  place_once n in_ring = mod_once (wb.tail + 1 + n) wb.size (omega (arith, in_ring, h.tail_in))

  -- A subtraction that may wrap once.
  size_once : (a b : ℕ) → a < 2 ^ 64 → b ≤ 2 ^ 64 → Folded (a + 2 ^ 64 - b) (2 ^ 64)
  size_once a b small small' = mod_once (a + 2 ^ 64 - b) (2 ^ 64) (omega (arith, small, small'))

  pub place_in : (n : ℕ) → n < wb.size → nth_place wb n < wb.size
  place_in n in_ring = mod-lt (wb.tail + 1 + n) (omega (arith, in_ring))

  size_minus : (a b : ℕ) → a < wb.size → b < 2 ^ 64 → Folded (a + 2 ^ 64 - b) (2 ^ 64)
  size_minus a b in_ring small =
      size_once a b (omega (arith, in_ring, fit.bounded)) (omega (arith, small))

  wrapped_once : (n : ℕ) → Folded (sub_size (nth_place wb n) wb.tail + 2 ^ 64 - 1) (2 ^ 64)
  wrapped_once n =
      size_once (sub_size (nth_place wb n) wb.tail) 1
        (mod-lt (nth_place wb n + 2 ^ 64 - wb.tail) {m = 2 ^ 64} (omega arith)) (omega arith)

  tail_once : (n : ℕ) → n < wb.size → Folded (nth_place wb n + 2 ^ 64 - wb.tail) (2 ^ 64)
  tail_once n in_ring =
      size_minus (nth_place wb n) wb.tail (place_in n in_ring)
        (omega (arith, h.tail_in, fit.bounded))

  pub waiting-nth_place : (n : ℕ) → n + 1 < wb.size → waiting wb (nth_place wb n) ≡ n
  waiting-nth_place n in_ring =
      let n_lt : n < wb.size = omega (arith, in_ring) in
      ground (
        arith,
        in_ring,
        place_once n n_lt,
        h.tail_in,
        fit.bounded,
        tail_once n n_lt,
        wrapped_once n,
      )

  -- One byte short of a full ring, the count of straight bytes wraps.
  pub waiting-full : (n : ℕ) → n + 1 ≡ wb.size → waiting wb (nth_place wb n) ≡ 2 ^ 64 - 1
  waiting-full n full =
      let n_lt : n < wb.size = omega (arith, full) in
      ground
        (arith, full, place_once n n_lt, h.tail_in, fit.bounded, tail_once n n_lt, wrapped_once n)

  -- Subtracting below 0 in 64 bits does not change the nth_place in the ring.
  wraps_around : (k : ℕ) → (2 ^ 64 + k) % wb.size ≡ k % wb.size
  wraps_around k =
      sym (mod-add-mod (2 ^ 64) wb.size k)
      ∙ ap (λ r. (r + k) % wb.size) fit.divides
      ∙ ap (λ r. r % wb.size) (omega arith)

  -- `k` and `t` stand for one nth_place, by at most one wrap of the ring and one of the word.
  abbrev pub Lands : ℕ → ℕ → Type 0
  Lands k t = (k ≡ t) ⊎ (k + wb.size ≡ t) ⊎ (k + wb.size ≡ 2 ^ 64 + t)

  pub Lands-mod : (k t : ℕ) → Lands k t → k % wb.size ≡ t % wb.size
  Lands-mod k t (inl e) = ap (λ n. n % wb.size) e
  Lands-mod k t (inr (inl e)) = sym (add-mod_right k wb.size) ∙ ap (λ n. n % wb.size) e
  Lands-mod k t (inr (inr e)) =
      sym (add-mod_right k wb.size) ∙ ap (λ n. n % wb.size) e ∙ wraps_around t

  Lands-back :
      (n : ℕ)
      → n < wb.size
      → blk < waiting wb (nth_place wb n)
      → Lands (sub_size (nth_place wb n) (waiting wb (nth_place wb n) - blk)) (wb.tail + 1 + blk)
  Lands-back n in_ring more = elim (dec_lt (n + 1) wb.size) [
    | yes straight ↦
        let count = waiting-nth_place n straight in
        let back =
          size_minus (nth_place wb n) (waiting wb (nth_place wb n) - blk) (place_in n in_ring)
            (omega (arith, count, in_ring, fit.bounded)) in
        ground (arith, count, more, back, place_once n in_ring, h.tail_in, fit.bounded, fit.larger)
    | no full ↦
        let count = waiting-full n (omega (arith, full, in_ring)) in
        let back =
          size_minus (nth_place wb n) (waiting wb (nth_place wb n) - blk) (place_in n in_ring)
            (omega (arith, count)) in
        ground (arith, count, full, back, place_once n in_ring, h.tail_in, fit.bounded, fit.larger)
  ]

  pub moved_back-nth_place :
      (n : ℕ)
      → n < wb.size
      → blk < waiting wb (nth_place wb n)
      → moved_back wb (nth_place wb n) blk ≡ nth_place wb blk
  moved_back-nth_place n in_ring more =
      Lands-mod (sub_size (nth_place wb n) (waiting wb (nth_place wb n) - blk)) (wb.tail + 1 + blk)
        (Lands-back n in_ring more)
