-- ===== src/Log/Window.antt =====
-- The write buffer of p4/logfs.c as a window on its ring: the bytes that it holds, in order, and what
-- an append does to them.
use jitcompilation.Prelude.{
  ℕ, ◌+◌, ◌-◌, ◌%◌, ◌≤◌, ◌<◌, ◌≡◌, ◌⊎◌, inl, inr, sym, ap, ◌∙◌, List, ◌++◌, length, length-append,
  get_elem?, dec_lt, arith,
}
use native.Mathlib.Nat.{mod-eq_of_lt, mod-eq-sub-mod}
use jitcompilation.Prelude.Bytes.{
  memcpy, get_elem?-append_lt, get_elem?-append_ge, get_elem?-memcpy_in, get_elem?-memcpy_before,
  get_elem?-memcpy_after, length-memcpy,
}
use jitcompilation.Log.Buffer.{WriteBuffer, free_space, copy_in}

abbrev pub Folded : ℕ → ℕ → Type 0
Folded n s = ((n < s) × (n % s ≡ n)) ⊎ ((s ≤ n) × (n % s + s ≡ n))

pub mod_once : (n s : ℕ) → n < s + s → Folded n s
mod_once n s h = elim (dec_lt n s) [
  | yes below ↦ inl (below, mod-eq_of_lt below)
  | no above ↦ inr (
    omega (arith, above),
    omega (
      arith,
      h,
      above,
      mod-eq-sub-mod {n = n} {m = s} (omega (arith, above)),
      mod-eq_of_lt {n = n - s} {m = s} (omega (arith, h, above)),
    ),
  )
]

-- Where the byte after `i` others stands.
abbrev pub nth_place : WriteBuffer → ℕ → ℕ
nth_place wb i = (wb.tail + 1 + i) % wb.size

pub record Holds (wb : WriteBuffer) (xs : List ℕ) : Type 0 where
  pub extent : length wb.buffer ≡ wb.size
  pub tail_in : wb.tail < wb.size
  pub room : length xs < wb.size
  pub head_at : wb.head ≡ nth_place wb (length xs)
  pub at : (i : ℕ) → i < length xs → get_elem? wb.buffer (nth_place wb i) ≡ get_elem? xs i

module _ (wb : WriteBuffer) (xs : List ℕ) (h : Holds wb xs) where
  pub once : (i : ℕ) → i ≤ length xs → Folded (wb.tail + 1 + i) wb.size
  once i le = mod_once (wb.tail + 1 + i) wb.size (omega (arith, le, h.tail_in, h.room))

  pub free_space-Holds : free_space wb ≡ wb.size - length xs
  free_space-Holds = ground (arith, h.tail_in, h.room, h.head_at, once (length xs) (omega arith))

module _ (wb : WriteBuffer) (xs buf : List ℕ) (h : Holds wb xs)
    (fits : length xs + length buf < wb.size) (straight : wb.head + length buf ≤ wb.size) where
  fits_in : wb.head + length buf ≤ length wb.buffer
  fits_in = omega (arith, straight, h.extent)

  head_once : Folded (wb.tail + 1 + length xs) wb.size
  head_once = once wb xs h (length xs) (omega arith)

  new_once : (i : ℕ) → i ≤ length xs + length buf → Folded (wb.tail + 1 + i) wb.size
  new_once i le = mod_once (wb.tail + 1 + i) wb.size (omega (arith, le, h.tail_in, fits))

  copied :
      (i : ℕ)
      → i < length (xs ++ buf)
      → get_elem? (memcpy wb.buffer wb.head buf) (nth_place wb i) ≡ get_elem? (xs ++ buf) i
  copied i inside =
      let shape = new_once i (omega (arith, inside, length-append xs buf)) in
      elim (dec_lt i (length xs)) [
        | yes old ↦ elim (dec_lt (nth_place wb i) wb.head) [
          | yes before ↦
              get_elem?-memcpy_before wb.buffer wb.head buf fits_in (nth_place wb i) before
              ∙ h.at i old
              ∙ sym (get_elem?-append_lt xs buf i old)
          | no after ↦
              get_elem?-memcpy_after wb.buffer wb.head buf fits_in (nth_place wb i)
                (ground (arith, old, after, shape, head_once, h.head_at, h.tail_in, fits))
              ∙ h.at i old
              ∙ sym (get_elem?-append_lt xs buf i old)
        ]
        | no new ↦
            get_elem?-memcpy_in wb.buffer wb.head buf fits_in (nth_place wb i)
              (ground (arith, new, inside, shape, head_once, h.head_at, length-append xs buf))
              (ground (arith, new, inside, shape, head_once, h.head_at, length-append xs buf))
            ∙ ap (get_elem? buf)
                (ground (arith, new, inside, shape, head_once, h.head_at, length-append xs buf))
            ∙ sym (get_elem?-append_ge xs buf i (omega (arith, new)))
      ]

  moved_head : (wb.head + length buf) % wb.size ≡ nth_place wb (length xs + length buf)
  moved_head =
      let sum = mod_once (wb.head + length buf) wb.size (omega (arith, straight, h.room)) in
      let shape = new_once (length xs + length buf) (omega arith) in
      ground (arith, sum, shape, head_once, h.head_at)

  pub copy_in-Holds : Holds (copy_in wb buf) (xs ++ buf)
  copy_in-Holds = record {
    extent = length-memcpy wb.buffer wb.head buf fits_in ∙ h.extent;
    tail_in = h.tail_in;
    room = omega (arith, fits, length-append xs buf);
    head_at = moved_head ∙ ap (nth_place wb) (sym (length-append xs buf));
    at = copied;
  }
