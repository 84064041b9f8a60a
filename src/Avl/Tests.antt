-- ===== src/Avl/Tests.antt =====
-- Runs of p3/avl.c on small trees, and the theorems about it at them.
use jitcompilation.Prelude.{ℕ, ◌+◌, ◌≡◌, refl, inl, Option, none, some, List, [], ◌∷◌, arith}
use jitcompilation.Prelude.Int.{pos, ◌-ℤ◌}
use jitcompilation.Avl.Strcmp.{strcmp}
use jitcompilation.Avl.Tree.{Tree, leaf, node, update}
use jitcompilation.Avl.Words.{total}
use jitcompilation.Avl.Erase.{remove_word, Once}
use jitcompilation.Avl.Balance.{height, IsAvl}
use jitcompilation.Avl.Growth.{Grows, update-Grows}
use jitcompilation.Avl.Handle.{Avl, avl_traverse, avl_items, avl_unique, avl_remove}
use jitcompilation.Avl.Contract.{IsValid, Returns, Shows}
use jitcompilation.Avl.Undo.{avl_remove-IsAvl, avl_remove-remove_word}

-- An allocator that always has room, and one that is full.
abbrev roomy : ℕ → Option ℕ
roomy n = some (1000 + n)

abbrev full : ℕ → Option ℕ
full n = none

abbrev one_word : ℕ → List ℕ
one_word k = k ∷ []

abbrev tip : ℕ → ℕ → Tree
tip k c = node (100 + k) (pos 0) c (record { address = 200 + k; text = one_word k }) leaf leaf

-- b, with a below it on the left and c on the right; b occurs `n` times, c occurs `m` times.
abbrev three : ℕ → ℕ → Tree
three n m = node 7 (pos 1) n (record { address = 8; text = one_word 98 }) (tip 97 1) (tip 99 m)

abbrev handle : ℕ → ℕ → Avl
handle n m = record {
  root = three n m;
  state = record { items = 1 + n + m; unique = 3; calls = 6; freed = [] };
}

handle-IsValid : IsValid (handle 1 1)
unfolding avl_traverse avl_items avl_unique total strcmp
handle-IsValid = record {
  ascending = ((refl, (refl, tt)), ((refl, tt), (tt, tt)));
  balanced = (
    refl,
    omega arith,
    omega arith,
    (refl, omega arith, omega arith, tt, tt),
    (refl, omega arith, omega arith, tt, tt),
  );
  items = refl;
  unique = refl;
}

-- c twice: the removal of b puts c in its place with its count of 2, and then removes only one c
-- from below, so that c stands in the tree twice.
removal_of_b :
    Returns
      (λ code avl'. avl_traverse avl' ≡ (one_word 97, 1) ∷ (one_word 99, 2) ∷ (one_word 99, 1) ∷ [])
      (avl_remove (handle 1 2) (one_word 98))
unfolding avl_traverse avl_remove strcmp ◌-ℤ◌
removal_of_b = refl

-- c once: the words are right, and the item that b's node then holds, at 299, was freed.
removal_frees :
    Returns (λ code avl'. avl'.state.freed ≡ 199 ∷ 299 ∷ []) (avl_remove (handle 1 1) (one_word 98))
unfolding avl_remove strcmp ◌-ℤ◌
removal_frees = refl

all-Once : Once (avl_traverse (handle 1 1))
unfolding avl_traverse
all-Once = (refl, (refl, (refl, tt)))

avl_remove-remove_word_example :
    Returns
      (λ code avl'.
        (code ≡ pos 0) × Shows (remove_word (one_word 98) (avl_traverse (handle 1 1))) avl')
      (avl_remove (handle 1 1) (one_word 98))
avl_remove-remove_word_example =
    avl_remove-remove_word (handle 1 1) (one_word 98) handle-IsValid (inl all-Once)

avl_remove-IsAvl_example :
    Returns (λ code avl'. (code ≡ pos 0) × IsAvl avl'.root) (avl_remove (handle 1 1) (one_word 98))
avl_remove-IsAvl_example = avl_remove-IsAvl (handle 1 1) (one_word 98) handle-IsValid.balanced

update-Grows_example :
    Grows
      (one_word 100)
      (height (three 1 1))
      (update full (three 1 1) (one_word 100) (handle 1 1).state)
update-Grows_example =
    update-Grows full (three 1 1) (one_word 100) (handle 1 1).state handle-IsValid.balanced
