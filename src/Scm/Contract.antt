-- ===== src/Scm/Contract.antt =====
-- scm_malloc, scm_free and scm_open of p3/scm.c against the blocks of the heap.
use jitcompilation.Prelude.Bytes.{add_size, memcpy, le_bytes, le_value, le_value-le_bytes}
use jitcompilation.Prelude.{
  ℕ, suc, ◌+◌, ◌^◌, ◌≤◌, ◌<◌, ◌≡◌, ◌⊎◌, inl, inr, refl, sym, ap, ◌∙◌, subst, Bool, true, false,
  Option, none, some, List, [], ◌∷◌, ◌++◌, length, ltb, if◌then◌else◌, arith,
}
use jitcompilation.Scm.Heap.{
  Scm, Run, returns, store, head_len, word_len, first_fit, push_block, scm_malloc, scm_free,
}
use jitcompilation.Scm.Blocks.{
  Block, BlocksAt, block_at, BlocksAt-le, BlocksAt-memcpy, BlocksAt-append,
}
use jitcompilation.Scm.Fit.{store_lem, fit, found, take_at, first_fit-fit, TakenIf, fit-TakenIf}
use jitcompilation.Scm.Heap.{scm_open, file_size}
use jitcompilation.Scm.Blocks.{extent, BlocksAt-split, BlocksAt-mark}
use jitcompilation.Scm.State.{IsHeap, mark-IsHeap}
use jitcompilation.Scm.Push.{push_steps, counted-IsHeap}

-- What scm_malloc does with a request: a new block behind the others, the first free one that is large
-- enough, or nothing.
pub data Allocates (scm : Scm) (blocks : List Block) (n : ℕ) : Run (Option ℕ × Scm) → Type 0 where
  pushes :
      {scm' : Scm}
      → scm.utilized + head_len + n ≤ scm.capacity
      → scm'.utilized ≡ scm.utilized + head_len + n
      → IsHeap scm' (blocks ++ ((true, n) ∷ []))
      → Allocates scm blocks n (returns (some (scm.utilized + head_len), scm'))
  reuses :
      {h : ℕ} {blocks' : List Block}
      → scm.capacity < scm.utilized + head_len + n
      → fit scm.capacity n 0 blocks ≡ some (h, blocks')
      → IsHeap (take_at scm h) blocks'
      → Allocates scm blocks n (returns (some (h + head_len), take_at scm h))
  refuses :
      scm.capacity < scm.utilized + head_len + n
      → fit scm.capacity n 0 blocks ≡ none
      → Allocates scm blocks n (returns (none, scm))

module _ (scm : Scm) (blocks : List Block) (n : ℕ) (heap : IsHeap scm blocks) (some_bytes : 0 < n)
    (no_wrap : scm.utilized + head_len + n < 2 ^ 64)
    (clear : (word_len + scm.utilized + head_len + n ≤ scm.capacity)
      ⊎ (scm.capacity < scm.utilized + head_len + n)) where
  sum : add_size scm.utilized (add_size head_len n) ≡ scm.utilized + head_len + n
  sum = omega (arith, no_wrap)

  found-Allocates :
      scm.capacity < scm.utilized + head_len + n
      → (o : Option (ℕ × List Block)) → fit scm.capacity n 0 blocks ≡ o
      → TakenIf scm.bytes scm.capacity n 0 scm.utilized o
      → Allocates scm blocks n (found scm o)
  found-Allocates full none e t = refuses full e
  found-Allocates full (some (h, blocks')) e t =
      reuses full e (mark-IsHeap scm blocks blocks' h (le_bytes 2 1) refl heap t.high t.blocks_at)

  walk-Allocates :
      scm.capacity < scm.utilized + head_len + n
      → Allocates scm blocks n (first_fit (suc scm.capacity) scm n 0)
  walk-Allocates full =
      subst (Allocates scm blocks n)
        (sym (
          first_fit-fit scm n some_bytes heap.whole heap.blocks_at heap.blank (suc scm.capacity)
            (omega arith) (omega arith)))
        (found-Allocates full (fit scm.capacity n 0 blocks) refl
          (fit-TakenIf scm.bytes scm.capacity n heap.blocks_at heap.inside))

  push-Allocates :
      word_len + scm.utilized + head_len + n ≤ scm.capacity
      → Allocates scm blocks n (push_block scm n (scm.utilized + head_len + n))
  push-Allocates room =
      let num_value : le_value (le_bytes 8 n) ≡ n =
        le_value-le_bytes 8 n (omega (arith, no_wrap)) in
      let count_value : le_value (le_bytes 8 (scm.utilized + head_len + n))
          ≡ scm.utilized + head_len + n =
        le_value-le_bytes 8 (scm.utilized + head_len + n) (omega (arith, no_wrap)) in
      let fits : word_len + (scm.utilized + head_len + n) ≤ scm.capacity = omega (arith, room) in
      subst (Allocates scm blocks n)
        (sym (
          push_steps scm blocks n (scm.utilized + head_len + n) heap refl fits (le_bytes 2 1)
            (le_bytes 8 n) (le_bytes 8 (scm.utilized + head_len + n)) refl refl refl refl num_value
            count_value))
        (pushes (omega (arith, room)) refl (
          counted-IsHeap scm blocks n (scm.utilized + head_len + n) heap refl fits (le_bytes 2 1)
            (le_bytes 8 n) (le_bytes 8 (scm.utilized + head_len + n)) refl refl refl refl num_value
            count_value))

  -- On a heap in order, a request of one byte or more, whose block, if it is within the capacity, leaves
  -- eight bytes of it for the count, and whose block does not wrap: scm_malloc returns. A block within
  -- the capacity is put behind the others and the count in the file follows; else the first free
  -- block that is large enough and starts 18 bytes or more before the end is taken as it is, and
  -- without one the answer is NULL and nothing changes. The heap is in order again.
  pub malloc-Allocates : Allocates scm blocks n (scm_malloc scm n)
  unfolding scm_malloc
  malloc-Allocates =
      subst
        (λ size. Allocates scm blocks n (
          if ltb scm.capacity size
          then first_fit (suc scm.capacity) scm n 0
          else push_block scm n size))
        (sym sum)
        (elim clear [
          | inl room ↦
              let test : ltb scm.capacity (scm.utilized + head_len + n) ≡ false =
                ground (arith, room) in
              rw test (push-Allocates room)
          | inr full ↦
              let test : ltb scm.capacity (scm.utilized + head_len + n) ≡ true =
                ground (arith, full) in
              rw test (walk-Allocates full)
        ])

-- The heap that is in the file is the heap that is opened again.
pub reopen :
    (scm : Scm) (blocks : List Block) (cuts : Bool)
    → IsHeap scm blocks
    → scm_open true (some (true, length scm.bytes, scm.bytes)) true cuts false ≡ some scm
unfolding scm_open file_size
reopen scm blocks cuts heap = rw (heap.count, sym heap.whole) refl

unmark :
    {bytes : List ℕ} {p e size : ℕ} {in_use : Bool} {back : List Block}
    → BlocksAt bytes p ((in_use, size) ∷ back) e
    → word_len + e ≤ length bytes
    → BlocksAt (memcpy bytes (word_len + p) (le_bytes 2 0)) p ((false, size) ∷ back) e
      × (p + head_len ≤ e)
unmark (block_at f s rest) inside =
    (BlocksAt-mark false (le_bytes 2 0) refl refl s inside rest, omega (arith, BlocksAt-le rest))

-- A heap of these blocks, in the memory that is returned and in the file that is opened later.
pub record Frees (blocks : List Block) (ran : Run Scm) : Type 0 where
  pub after : Scm
  pub returned : ran ≡ returns after
  pub heap : IsHeap after blocks
  pub kept :
      (cuts : Bool)
      → scm_open true (some (true, length after.bytes, after.bytes)) true cuts false ≡ some after

-- scm_free of the address of a block of a heap in order marks that block as free, and no other; the heap
-- is in order again, and scm_open of the file, not truncated, gives it as it is.
pub free-Frees :
    (scm : Scm) (front back : List Block) (in_use : Bool) (size : ℕ)
    → IsHeap scm (front ++ ((in_use, size) ∷ back))
    → Frees (front ++ ((false, size) ∷ back)) (scm_free scm (extent front + head_len))
unfolding scm_free
free-Frees scm front back in_use size heap =
    let (before, behind) =
      BlocksAt-split scm.bytes 0 (extent front) scm.utilized front ((in_use, size) ∷ back)
        (omega arith) heap.blocks_at in
    let (marked, high) = unmark behind heap.inside in
    let room : word_len + extent front + length (le_bytes 2 0) ≤ length scm.bytes =
      omega (arith, high, heap.inside) in
    let front_stays =
      BlocksAt-memcpy before (word_len + extent front) (le_bytes 2 0) room
        (omega (arith, high, heap.inside)) (inl (omega arith)) in
    let freed =
      mark-IsHeap scm (front ++ ((in_use, size) ∷ back)) (front ++ ((false, size) ∷ back))
        (extent front) (le_bytes 2 0) refl heap high (BlocksAt-append front_stays marked) in
    record {
      after = record scm { bytes = memcpy scm.bytes (word_len + extent front) (le_bytes 2 0) };
      returned =
          let test : ltb (word_len + (extent front + head_len)) head_len ≡ false = ground arith in
          rw test (
            ap (λ at. store scm at (le_bytes 2 0)) (omega arith)
            ∙ store_lem scm (word_len + extent front) (le_bytes 2 0) room);
      heap = freed;
      kept = λ cuts. reopen _ (front ++ ((false, size) ∷ back)) cuts freed;
    }
