-- ===== src/Log/Append.antt =====
-- write_buffer_add of p4/logfs.c: what the buffer holds after an append, on every branch.
use jitcompilation.Prelude.Bytes.{sub_size}
use jitcompilation.Prelude.{
  ℕ, ◌+◌, ◌-◌, ◌%◌, ◌^◌, ◌≤◌, ◌<◌, ◌≡◌, inl, inr, refl, sym, ap, ◌∙◌, subst, true, false, some,
  List, [], ◌++◌, length, length-append, length-replicate, replicate, length-take, get_elem?, take,
  ltb, leb, if◌then◌else◌, Bool-cases, dec_lt, arith,
}
use jitcompilation.Prelude.Bytes.{
  memcpy, slice, get_elem?-append_lt, get_elem?-append_ge, get_elem?-take, get_elem?-slice,
  length-slice, get_elem?-memcpy_in, get_elem?-memcpy_before, get_elem?-memcpy_after, length-memcpy,
}
use jitcompilation.Log.Buffer.{
  WriteBuffer, write_buffer_add, free_space, copy_around, amount_buffered, write_buffer_open,
}
use jitcompilation.Log.Window.{
  Folded, mod_once, nth_place, Holds, once, free_space-Holds, copy_in-Holds,
}

-- The copy goes around the end: the first part fills the ring from the head, the rest its start.
module _ (wb : WriteBuffer) (xs buf : List ℕ) (h : Holds wb xs)
    (fits : length xs + length buf < wb.size) (behind : wb.tail < wb.head)
    (wraps : wb.size - wb.head < length buf) where
  abbrev rest : List ℕ
  rest = slice buf (wb.size - wb.head) (length buf - (wb.size - wb.head))

  abbrev first : List ℕ
  first = take (wb.size - wb.head) buf

  head_shape : Folded (wb.tail + 1 + length xs) wb.size
  head_shape = once wb xs h (length xs) (omega arith)

  head_in : wb.head < wb.size
  head_in = ground (arith, head_shape, h.head_at, h.tail_in, h.room)

  unwrapped : wb.head ≡ wb.tail + 1 + length xs
  unwrapped = ground (arith, head_shape, h.head_at, h.tail_in, h.room, behind)

  first_size : length first ≡ wb.size - wb.head
  first_size = omega (arith, wraps, length-take (wb.size - wb.head) buf)

  rest_size : length rest ≡ length buf - (wb.size - wb.head)
  rest_size =
      length-slice buf (wb.size - wb.head) (length buf - (wb.size - wb.head)) (omega (arith, wraps))

  first_fits : wb.head + length first ≤ length wb.buffer
  first_fits = omega (arith, first_size, h.extent, head_in)

  rest_fits : 0 + length rest ≤ length (memcpy wb.buffer wb.head first)
  rest_fits = omega (
    arith,
    rest_size,
    h.extent,
    fits,
    head_in,
    unwrapped,
    length-memcpy wb.buffer wb.head first first_fits,
  )

  -- The sizes of the parts, for the arithmetic below.
  sizes :
      (length first ≡ wb.size - wb.head)
      × (length rest ≡ length buf - (wb.size - wb.head))
      × (wb.head < wb.size)
      × (wb.head ≡ wb.tail + 1 + length xs)
      × (length (xs ++ buf) ≡ length xs + length buf)
  sizes = (first_size, rest_size, head_in, unwrapped, length-append xs buf)

  shape_at : (i : ℕ) → i < length (xs ++ buf) → Folded (wb.tail + 1 + i) wb.size
  shape_at i inside =
      mod_once (wb.tail + 1 + i) wb.size
        (omega (arith, inside, h.tail_in, fits, length-append xs buf))

  abbrev around : List ℕ
  around = memcpy (memcpy wb.buffer wb.head first) 0 rest

  past_rest :
      (j : ℕ) → length rest ≤ j → get_elem? around j ≡ get_elem? (memcpy wb.buffer wb.head first) j
  past_rest j past =
      get_elem?-memcpy_after (memcpy wb.buffer wb.head first) 0 rest rest_fits j
        (omega (arith, past))

  copied_new :
      (i : ℕ)
      → i < length (xs ++ buf)
      → ¬ (i < length xs)
      → Folded (wb.tail + 1 + i) wb.size
      → get_elem? around (nth_place wb i) ≡ get_elem? (xs ++ buf) i
  copied_new i inside new shape = elim (dec_lt (i - length xs) (wb.size - wb.head)) [
    | yes early ↦
        past_rest (nth_place wb i) (ground (arith, sizes, new, early, shape, fits, h.tail_in))
        ∙ get_elem?-memcpy_in wb.buffer wb.head first first_fits (nth_place wb i)
            (ground (arith, sizes, new, early, shape)) (ground (arith, sizes, new, early, shape))
        ∙ ap (get_elem? first) (ground (arith, sizes, new, early, shape))
        ∙ get_elem?-take (wb.size - wb.head) buf (i - length xs) early
        ∙ sym (get_elem?-append_ge xs buf i (omega (arith, new)))
    | no late ↦
        get_elem?-memcpy_in (memcpy wb.buffer wb.head first) 0 rest rest_fits (nth_place wb i)
          (omega arith) (ground (arith, sizes, new, late, shape, inside))
        ∙ get_elem?-slice buf (wb.size - wb.head) (length buf - (wb.size - wb.head))
            (nth_place wb i - 0) (ground (arith, sizes, new, late, shape, inside))
        ∙ ap (get_elem? buf) (ground (arith, sizes, new, late, shape, inside))
        ∙ sym (get_elem?-append_ge xs buf i (omega (arith, new)))
  ]

  copied_around :
      (i : ℕ) → i < length (xs ++ buf) → get_elem? around (nth_place wb i) ≡ get_elem? (xs ++ buf) i
  copied_around i inside =
      let shape = shape_at i inside in
      elim (dec_lt i (length xs)) [
        | yes old ↦
            past_rest (nth_place wb i) (ground (arith, sizes, old, shape, fits))
            ∙ get_elem?-memcpy_before wb.buffer wb.head first first_fits (nth_place wb i)
                (ground (arith, sizes, old, shape))
            ∙ h.at i old
            ∙ sym (get_elem?-append_lt xs buf i old)
        | no new ↦ copied_new i inside new shape
      ]

  around_head : (length buf - (wb.size - wb.head)) % wb.size ≡ nth_place wb (length xs + length buf)
  around_head =
      let sum = mod_once (length buf - (wb.size - wb.head)) wb.size (omega (arith, fits, h.room)) in
      let shape =
        mod_once (wb.tail + 1 + (length xs + length buf)) wb.size
          (omega (arith, fits, h.tail_in)) in
      ground (arith, sizes, sum, shape, wraps, fits, h.tail_in)

  copy_around-Holds : Holds (copy_around wb buf (wb.size - wb.head)) (xs ++ buf)
  copy_around-Holds = record {
    extent =
        length-memcpy (memcpy wb.buffer wb.head first) 0 rest rest_fits
        ∙ length-memcpy wb.buffer wb.head first first_fits
        ∙ h.extent;
    tail_in = h.tail_in;
    room = omega (arith, fits, length-append xs buf);
    head_at = around_head ∙ ap (nth_place wb) (sym (length-append xs buf));
    at = copied_around;
  }

-- The buffer after an append, by how much room there was.
pub record Adds (wb : WriteBuffer) (xs buf : List ℕ) : Type 0 where
  pub added :
      length xs + length buf < wb.size
      → ((write_buffer_add wb buf).0 ≡ 0)
        × Holds (write_buffer_add wb buf).1 (xs ++ buf)
        × ((write_buffer_add wb buf).1.size ≡ wb.size)
        × ((write_buffer_add wb buf).1.last_avail ≡ wb.last_avail)
  pub refused : wb.size < length xs + length buf → write_buffer_add wb buf ≡ (1, wb)
  pub forgotten :
      length xs + length buf ≡ wb.size
      → ((write_buffer_add wb buf).0 ≡ 0) × (amount_buffered (write_buffer_add wb buf).1 ≡ 0)

module _ (wb : WriteBuffer) (xs buf : List ℕ) (h : Holds wb xs) where
  roomy : length xs + length buf ≤ wb.size → leb (length buf) (free_space wb) ≡ true
  roomy room = ground (arith, room, free_space-Holds wb xs h)

  where_head : Folded (wb.tail + 1 + length xs) wb.size
  where_head = once wb xs h (length xs) (omega arith)

  -- A ring that is filled to its last byte counts as empty.
  filled :
      (head : ℕ)
      → head ≡ (wb.tail + 1) % wb.size
      → (if ltb wb.tail head then head - wb.tail - 1 else wb.size - wb.tail - 1 + head) ≡ 0
  filled head e =
      ground
        (arith, e, h.tail_in, mod_once (wb.tail + 1) wb.size (omega (arith, h.tail_in, h.room)))

  -- A well-formed buffer that an append leaves less than full holds the old bytes and the new ones; an
  -- append that is too long is refused; one that fills the ring leaves it empty.
  pub add-Adds : Adds wb xs buf
  unfolding write_buffer_add
  add-Adds = record {
    added = λ room.
        let fits = roomy (omega (arith, room)) in
        elim (Bool-cases (leb wb.head wb.tail)) [
          | inl low ↦
              rw (fits, low)
                (
                  refl,
                  copy_in-Holds wb xs buf h room
                      (ground (arith, low, where_head, h.head_at, h.tail_in, room)),
                  refl,
                  refl,
                )
          | inr high ↦ elim (Bool-cases (ltb (wb.size - wb.head) (length buf))) [
            | inl wraps ↦
                rw (fits, high, wraps)
                  (
                    refl,
                    copy_around-Holds wb xs buf h room (ground (arith, high))
                        (ground (arith, wraps)),
                    refl,
                    refl,
                  )
            | inr straight ↦
                rw (fits, high, straight)
                  (
                    refl,
                    copy_in-Holds wb xs buf h room
                        (ground (arith, straight, where_head, h.head_at, h.tail_in, h.room)),
                    refl,
                    refl,
                  )
          ]
        ];
    refused = λ over.
        let short : leb (length buf) (free_space wb) ≡ false =
          ground (arith, over, free_space-Holds wb xs h) in
        rw short refl;
    forgotten = λ full.
        let fits = roomy (omega (arith, full)) in
        elim (Bool-cases (leb wb.head wb.tail)) [
          | inl low ↦
              rw (fits, low)
                (
                  refl,
                  filled ((wb.head + length buf) % wb.size) (
                      ap (λ k. k % wb.size)
                        (ground (arith, low, where_head, h.head_at, h.tail_in, full))),
                )
          | inr high ↦
              let wraps : ltb (wb.size - wb.head) (length buf) ≡ true =
                ground (arith, high, where_head, h.head_at, h.tail_in, full) in
              rw (fits, high, wraps)
                (
                  refl,
                  filled ((length buf - (wb.size - wb.head)) % wb.size) (
                      ap (λ k. k % wb.size)
                        (ground (arith, high, where_head, h.head_at, h.tail_in, full))),
                )
        ];
  }

-- A fresh ring holds nothing.
pub open-Holds :
    (buff_size : ℕ) {wb : WriteBuffer}
    → 0 < buff_size
    → buff_size < 2 ^ 64
    → write_buffer_open (true, true) buff_size ≡ some wb
    → Holds wb [] × (wb.size ≡ buff_size) × (wb.last_avail ≡ 0)
unfolding write_buffer_open
open-Holds buff_size filled small opened =
    subst (λ w. Holds w [] × (w.size ≡ buff_size) × (w.last_avail ≡ 0)) (cc opened)
      (fresh, refl, refl)
  where
    last : sub_size buff_size 1 ≡ buff_size - 1
    last =
        ground
          (arith, filled, small, mod_once (buff_size + 2 ^ 64 - 1) (2 ^ 64) (omega (arith, small)))

    fresh :
        Holds
          (record {
            buffer = replicate buff_size 0;
            head = 0;
            tail = sub_size buff_size 1;
            size = buff_size;
            last_avail = 0;
          })
          []
    fresh = record {
      extent = length-replicate buff_size 0;
      tail_in = omega (arith, last, filled);
      room = filled;
      head_at = ground (
        arith,
        last,
        filled,
        mod_once (sub_size buff_size 1 + 1 + 0) buff_size (omega (arith, last, filled)),
      );
      at = λ i inside. absurd (omega (arith, inside));
    }
