-- ===== src/Log/Dequeue.antt =====
-- write_buffer_dequeue of p4/logfs.c, whole: an emptying flush takes the first block of the bytes that
-- the buffer holds, the flush before a read writes all of them and keeps them.
use jitcompilation.Prelude.{
  ℕ, suc, ◌+◌, ◌*◌, ◌/◌, ◌-◌, ◌%◌, ◌^◌, ◌≤◌, ◌<◌, ◌≡◌, inl, inr, refl, sym, ap, ◌∙◌, subst, Bool,
  true, false, List, length, take, drop, ltb, leb, ◌==◌, Bool-cases, dec_lt, arith,
}
use native.Mathlib.Nat.{mod-eq_of_lt, mod-lt, mod_self, div-add-mod', suc-mul}
use jitcompilation.Prelude.Bytes.{zero_padded, take-all, drop-all}
use jitcompilation.Log.Buffer.{
  WriteBuffer, nothing, block, round_up, waiting, moved_back, take_out, dequeue_from,
  write_buffer_dequeue,
}
use jitcompilation.Log.Window.{nth_place, Holds}
use jitcompilation.Log.Heads.{Fits, waiting-nth_place, waiting-full, moved_back-nth_place}
use jitcompilation.Log.Block.{take_out-taken, taken-Holds}

pub round_up-block : (n blk : ℕ) → 0 < n → n ≤ blk → blk < 2 ^ 64 → round_up n blk ≡ blk
round_up-block n blk some_bytes within small = elim (dec_lt n blk) [
  | yes less ↦
      let rest = mod-eq_of_lt {n = n} {m = blk} less in
      let whole =
        mod-eq_of_lt {n = n + (blk - n % blk)} {m = 2 ^ 64} (omega (arith, rest, small, less)) in
      ground (arith, rest, whole, some_bytes, less)
  | no same ↦
      let e : n ≡ blk = omega (arith, within, same) in
      let rest : n % blk ≡ 0 = ap (λ k. k % blk) e ∙ mod_self blk in
      let whole = mod-eq_of_lt {n = n + 0} {m = 2 ^ 64} (omega (arith, within, small)) in
      ground (arith, rest, whole, e)
]

module _ (rounds : ℕ) (wb : WriteBuffer) (head blk : ℕ) where
  round-nothing :
      (dont_dequeue : Bool)
      → waiting wb head ≡ 0
      → dequeue_from (suc rounds) wb head blk dont_dequeue ≡ nothing
  unfolding dequeue_from
  round-nothing dont_dequeue e = rw e refl

  round-retry :
      blk < waiting wb head
      → dequeue_from (suc rounds) wb head blk false
        ≡ dequeue_from rounds wb (moved_back wb head blk) blk false
  unfolding dequeue_from
  round-retry more =
      let some_bytes : (waiting wb head == 0) ≡ false = ground (arith, more) in
      let many : ltb blk (waiting wb head) ≡ true = ground (arith, more) in
      rw (some_bytes, many) refl

  round-take :
      (n : ℕ)
      → waiting wb head ≡ n
      → 0 < n
      → n ≤ blk
      → dequeue_from (suc rounds) wb head blk false ≡ take_out wb head n blk false
  unfolding dequeue_from
  round-take n e filled few =
      let some_bytes : (n == 0) ≡ false = ground (arith, filled) in
      let one : ltb blk n ≡ false = ground (arith, few) in rw (e, some_bytes, one) refl

  round-kept :
      (n : ℕ)
      → waiting wb head ≡ n
      → n ≤ wb.last_avail
      → dequeue_from (suc rounds) wb head blk true ≡ nothing
  unfolding dequeue_from
  round-kept n e old = rw e (elim (Bool-cases (n == 0)) [
    | inl none_waits ↦ rw none_waits refl
    | inr some_wait ↦
        let kept : leb n wb.last_avail ≡ true = ground (arith, old) in rw (some_wait, kept) refl
  ])

  round-write :
      (n : ℕ)
      → waiting wb head ≡ n
      → wb.last_avail < n
      → dequeue_from (suc rounds) wb head blk true ≡ take_out wb head n blk true
  unfolding dequeue_from
  round-write n e new =
      let some_bytes : (n == 0) ≡ false = ground (arith, new) in
      let fresh : leb n wb.last_avail ≡ false = ground (arith, new) in
      rw (e, some_bytes, fresh) refl

-- What a flush that empties the buffer takes, by what the buffer holds.
pub record Dequeues (wb : WriteBuffer) (xs : List ℕ) (blk : ℕ) : Type 0 where
  pub empty : length xs ≡ 0 → write_buffer_dequeue wb blk false ≡ nothing
  pub first_block :
      0 < length xs
      → (wb' : WriteBuffer) × (write_buffer_dequeue wb blk false
          ≡ block (zero_padded (take blk xs) blk) wb')
        × Holds wb' (drop blk xs)
        × (wb'.size ≡ wb.size)
        × (wb'.last_avail ≡ 0)

-- What the flush before a read writes, by the computed size.
pub record Padded (wb : WriteBuffer) (xs : List ℕ) (blk : ℕ) : Type 0 where
  pub old : length xs ≤ wb.last_avail → write_buffer_dequeue wb blk true ≡ nothing
  pub new :
      wb.last_avail < length xs
      → write_buffer_dequeue wb blk true
        ≡ block (zero_padded xs (round_up (length xs) blk)) (record wb { last_avail = length xs })

-- What the flush before a read writes: whole blocks, as few as hold the bytes. A ring of which one byte
-- is free is taken for an impossible count, and the program exits.
pub record Writes (wb : WriteBuffer) (xs : List ℕ) (blk : ℕ) : Type 0 where
  pub old : length xs ≤ wb.last_avail → write_buffer_dequeue wb blk true ≡ nothing
  pub new :
      wb.last_avail < length xs
      → (blocks : ℕ) × (write_buffer_dequeue wb blk true
          ≡ block (zero_padded xs (blocks * blk)) (record wb { last_avail = length xs }))
        × (length xs ≤ blocks * blk)
        × (blocks * blk < length xs + blk)

round_up_whole :
    (n blk : ℕ)
    → 0 < blk
    → n + blk < 2 ^ 64
    → (blocks : ℕ) × (round_up n blk ≡ blocks * blk) × (n ≤ blocks * blk) × (blocks * blk < n + blk)
round_up_whole n blk some_bytes small =
    let parts = div-add-mod' n blk in
    let rest = mod-lt n {m = blk} some_bytes in
    elim (Bool-cases (n % blk == 0)) [
      | inl e ↦
          let none_left : n % blk ≡ 0 = ground (arith, e) in
          let fits = mod-eq_of_lt {n = n + 0} {m = 2 ^ 64} (omega (arith, small)) in
          (
            n / blk,
            rw e (fits ∙ omega (arith, parts, none_left)),
            omega (arith, parts, none_left),
            omega (arith, parts, none_left, some_bytes),
          )
      | inr e ↦
          let some_left : 0 < n % blk = ground (arith, e) in
          let fits = mod-eq_of_lt {n = n + (blk - n % blk)} {m = 2 ^ 64} (omega (arith, small)) in
          let one_more = suc-mul (n / blk) blk in
          (
            suc (n / blk),
            rw e (fits ∙ omega (arith, parts, rest, one_more)),
            omega (arith, parts, rest, one_more),
            omega (arith, parts, some_left, one_more),
          )
    ]

module _ (wb : WriteBuffer) (xs : List ℕ) (h : Holds wb xs) (blk : ℕ) (fit : Fits wb blk) where
  from_head :
      (dont_dequeue : Bool)
      → write_buffer_dequeue wb blk dont_dequeue
        ≡ dequeue_from 2 wb (nth_place wb (length xs)) blk dont_dequeue
  unfolding write_buffer_dequeue
  from_head dont_dequeue = ap (λ head. dequeue_from 2 wb head blk dont_dequeue) h.head_at

  -- At most a block waits: it is taken as it is.
  one_round :
      (rounds n : ℕ)
      → n ≤ length xs
      → n + 1 < wb.size
      → 0 < n
      → n ≤ blk
      → dequeue_from (suc rounds) wb (nth_place wb n) blk false
        ≡ block
            (zero_padded (take n xs) blk)
            (record wb { last_avail = 0; tail = (wb.tail + n) % wb.size })
  one_round rounds n n_le n_lt n_some few =
      round-take rounds wb (nth_place wb n) blk n (waiting-nth_place wb xs h blk fit n n_lt) n_some
        few
      ∙ take_out-taken wb xs h blk fit n n_le n_lt n_some false
      ∙ ap
          (λ m.
            block (zero_padded (take n xs) m)
              (record wb { last_avail = 0; tail = (wb.tail + n) % wb.size }))
          (round_up-block n blk n_some few (omega (arith, fit.larger, fit.bounded)))

  more_than_block : blk < length xs → blk < waiting wb (nth_place wb (length xs))
  more_than_block many = elim (dec_lt (length xs + 1) wb.size) [
    | yes below ↦ omega (arith, many, waiting-nth_place wb xs h blk fit (length xs) below)
    | no full ↦ omega (
      arith,
      fit.larger,
      fit.bounded,
      waiting-full wb xs h blk fit (length xs) (omega (arith, full, h.room)),
    )
  ]

  -- Exactly a block or less: both counts take everything.
  all_taken : length xs ≤ blk → take (length xs) xs ≡ take blk xs
  all_taken few = take-all (length xs) xs (omega arith) ∙ sym (take-all blk xs few)

  all_dropped : length xs ≤ blk → drop (length xs) xs ≡ drop blk xs
  all_dropped few = drop-all (length xs) xs (omega arith) ∙ sym (drop-all blk xs few)

  abbrev emptied : ℕ → WriteBuffer
  emptied n = record wb { last_avail = 0; tail = (wb.tail + n) % wb.size }

  -- From a well-formed buffer, where the ring is a power of two of bytes and more than a byte larger than
  -- a block, write_buffer_dequeue returns NULL if nothing is held, and otherwise the first block of
  -- the bytes held, padded with zeros; the buffer then holds the bytes after it.
  pub dequeue-Dequeues : Dequeues wb xs blk
  dequeue-Dequeues = record {
    empty = λ none_held.
        from_head false
        ∙ round-nothing 1 wb (nth_place wb (length xs)) blk false (
            waiting-nth_place wb xs h blk fit (length xs) (omega (arith, none_held, fit.larger))
            ∙ none_held);
    first_block = λ some_held. elim (dec_lt blk (length xs)) [
      | yes many ↦ (
        emptied blk,
        from_head false
            ∙ round-retry 1 wb (nth_place wb (length xs)) blk (more_than_block many)
            ∙ ap (λ head. dequeue_from 1 wb head blk false)
                (moved_back-nth_place wb xs h blk fit (length xs) h.room (more_than_block many))
            ∙ one_round 0 blk (omega (arith, many)) fit.larger fit.some_bytes (omega arith),
        taken-Holds wb xs h blk fit blk (omega (arith, many)) fit.larger fit.some_bytes,
        refl,
        refl,
      )
      | no few ↦
          let within : length xs ≤ blk = omega (arith, few) in
          let below : length xs + 1 < wb.size = omega (arith, few, fit.larger) in
          (
            emptied (length xs),
            from_head false
                ∙ one_round 1 (length xs) (omega arith) below some_held within
                ∙ ap (λ ys. block (zero_padded ys blk) (emptied (length xs))) (all_taken within),
            subst (Holds (emptied (length xs))) (all_dropped within)
                (taken-Holds wb xs h blk fit (length xs) (omega arith) below some_held),
            refl,
            refl,
          )
    ];
  }

  pub dequeue-Padded : length xs + 1 < wb.size → Padded wb xs blk
  dequeue-Padded spare = record {
    old = λ none_new.
        from_head true
        ∙ round-kept 1 wb (nth_place wb (length xs)) blk (length xs)
            (waiting-nth_place wb xs h blk fit (length xs) spare) none_new;
    new = λ some_new.
        from_head true
        ∙ round-write 1 wb (nth_place wb (length xs)) blk (length xs)
            (waiting-nth_place wb xs h blk fit (length xs) spare) some_new
        ∙ take_out-taken wb xs h blk fit (length xs) (omega arith) spare (omega (arith, some_new))
            true
        ∙ ap
            (λ ys.
              block (zero_padded ys (round_up (length xs) blk))
                (record wb { last_avail = length xs }))
            (take-all (length xs) xs (omega arith));
  }

  -- From a well-formed buffer with a byte of the ring to spare, where the ring is a power of two of
  -- bytes and more than a byte larger than a block, the flush before a read writes the bytes held,
  -- padded with zeros to whole blocks, as few as hold them, and keeps them; it writes nothing if no
  -- byte was added since the last one.
  pub dequeue-Writes : length xs + 1 < wb.size → Writes wb xs blk
  dequeue-Writes spare = record {
    old = (dequeue-Padded spare).old;
    new = λ some_new.
        let (blocks, same, enough, few) =
          round_up_whole (length xs) blk fit.some_bytes
            (omega (arith, spare, fit.larger, fit.bounded)) in
        (
          blocks,
          (dequeue-Padded spare).new some_new
              ∙ ap (λ n. block (zero_padded xs n) (record wb { last_avail = length xs })) same,
          enough,
          few,
        );
  }
