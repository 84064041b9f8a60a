-- ===== src/Scm/Tests.antt =====
-- Runs of the heap of p3/scm.c, and its theorems at concrete inputs.
use jitcompilation.Prelude.{
  ℕ, ◌≡◌, inr, refl, true, false, Option, some, none, List, [], ◌∷◌, arith,
}
use jitcompilation.Scm.Heap.{
  Scm, Run, faults, spins, returns, scm_malloc, scm_strdup, scm_free, first_fit,
}
use jitcompilation.Scm.Blocks.{Block, no_block, block_at}
use jitcompilation.Scm.State.{IsHeap}
use jitcompilation.Scm.Contract.{Allocates, malloc-Allocates, Frees, free-Frees}

-- A block of 3 bytes in use, a free one of 6, and 7 bytes behind them.
abbrev heap : Scm
heap = record {
  utilized = 29;
  capacity = 44;
  bytes =
      29 ∷ 0 ∷ 0 ∷ 0 ∷ 0 ∷ 0 ∷ 0 ∷ 0 ∷ 1 ∷ 0 ∷ 3 ∷ 0 ∷ 0 ∷ 0 ∷ 0 ∷ 0 ∷ 0 ∷ 0 ∷ 104 ∷ 105 ∷ 0 ∷ 0 ∷ 0
      ∷ 6 ∷ 0 ∷ 0 ∷ 0 ∷ 0 ∷ 0 ∷ 0 ∷ 0 ∷ 1 ∷ 2 ∷ 3 ∷ 4 ∷ 5 ∷ 6 ∷ 0 ∷ 0 ∷ 0 ∷ 0 ∷ 0 ∷ 0 ∷ 0 ∷ [];
}

abbrev blocks : List Block
blocks = (true, 3) ∷ (false, 6) ∷ []

heap-IsHeap : IsHeap heap blocks
heap-IsHeap = record {
  whole = refl;
  small = omega arith;
  inside = omega arith;
  count = refl;
  blocks_at = block_at refl refl (block_at refl refl no_block);
  blank = λ p from inside. absurd (omega (arith, from, inside));
}

malloc-Allocates_example : Allocates heap blocks 6 (scm_malloc heap 6)
malloc-Allocates_example =
    malloc-Allocates heap blocks 6 heap-IsHeap (omega arith) (omega arith) (inr (omega arith))

free-Frees_example : Frees ((false, 3) ∷ (false, 6) ∷ []) (scm_free heap 10)
free-Frees_example = free-Frees heap [] ((false, 6) ∷ []) true 3 heap-IsHeap

abbrev place : Run (Option ℕ × Scm) → Option ℕ
place faults = none
place spins = none
place (returns (p, scm)) = p

-- The free block of 6 bytes is taken for 6 bytes, and not for 7.
free_block_taken : place (scm_malloc heap 6) ≡ some 23
unfolding scm_malloc first_fit
free_block_taken = refl

too_large : place (scm_malloc heap 7) ≡ none
unfolding scm_malloc first_fit
too_large = refl

-- A string of 5 bytes and its end do not go behind the last block, and go into the free one.
string_placed : place (scm_strdup heap (97 ∷ 98 ∷ 99 ∷ 100 ∷ 101 ∷ [])) ≡ some 23
unfolding scm_strdup scm_malloc first_fit
string_placed = refl

-- The test for room leaves out the 8 bytes of the count: the size of the block goes past the end.
past_the_end : scm_malloc heap 5 ≡ faults
unfolding scm_malloc first_fit
past_the_end = refl
