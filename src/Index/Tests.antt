-- ===== src/Index/Tests.antt =====
-- Runs of p4/index.c, and the theorems about it at them.
use jitcompilation.Prelude.{ℕ, ◌≡◌, ◌≢◌, refl, none, some, List, [], ◌∷◌, true, replicate, arith}
use jitcompilation.Index.Hash.{hash, key_of}
use jitcompilation.Index.Table.{Index, update, assign, index_lookup, index_update, grow, answer}
use jitcompilation.Index.Store.{IsSettled}
use jitcompilation.Index.Growth.{empty-IsSettled, Agrees, grow-Agrees, index_lookup-index_update}
use jitcompilation.Index.Room.{update-ne-none}

abbrev key_a : ℕ
key_a = 3946091691140827964

hash_of_a : hash (97 ∷ []) ≡ key_a
unfolding hash
hash_of_a = refl

-- A byte above 127 is extended by its sign.
hash_of_signed : hash (107 ∷ 200 ∷ []) ≡ 16230313183840816314
unfolding hash
hash_of_signed = refl

abbrev small : Index
small = record { size = 0; maps = replicate 3 (0, 0) }

abbrev filled : Index
filled = record { size = 1; maps = (0, 0) ∷ (0, 0) ∷ (key_a, 0) ∷ [] }

small_update : index_update true small (97 ∷ []) ≡ answer (filled, 2)
unfolding index_update key_of
small_update = refl

index_lookup-index_update_example :
    IsSettled (assign filled 2 40).maps
    × (index_lookup (assign filled 2 40) (97 ∷ []) ≡ some 40)
    × ((other : List ℕ)
        → key_of (97 ∷ []) ≢ key_of other
        → index_lookup (assign filled 2 40) other ≡ index_lookup small other)
index_lookup-index_update_example =
    index_lookup-index_update true small (97 ∷ []) (empty-IsSettled 3) small_update 40

update-ne-none_example : update small 17 ≢ none
update-ne-none_example = update-ne-none small 17 1 0 (λ e. ground (arith, e)) refl (omega arith)

grow-Agrees_example : Agrees small (grow true small)
grow-Agrees_example = grow-Agrees true small (empty-IsSettled 3)
