-- ===== src/Avl/Handle.antt =====
-- The handle of p3/avl.c: avl_insert, avl_remove and the queries on an open tree.
use jitcompilation.Prelude.{ℕ, Option, none, some, List}
use jitcompilation.Prelude.Int.{ℤ, pos, negsuc}
use jitcompilation.Avl.Tree.{Tree, leaf, node, State, update, exists, traverse}
use jitcompilation.Avl.Remove.{remove_node}

-- `struct avl`: the root, and the rest of its `state`.
pub record Avl : Type 0 where
  pub root : Tree
  pub state : State

-- The result of the call and the handle after it; `none` is a read through NULL.
unfoldable pub avl_insert : (ℕ → Option ℕ) → Avl → List ℕ → Option (ℤ × Avl)
unfolding update
avl_insert alloc avl item = elim (update alloc avl.root item avl.state) [
  | none ↦ none
  | some (leaf, s) ↦ some (negsuc 0, record avl { state = s })
  | some (node a d c x l r, s) ↦ some (pos 0, record { root = node a d c x l r; state = s })
]

unfoldable pub avl_exists : Avl → List ℕ → ℕ
unfolding exists
avl_exists avl item = exists avl.root item

unfoldable pub avl_traverse : Avl → List (List ℕ × ℕ)
unfolding traverse
avl_traverse avl = traverse avl.root

unfoldable pub avl_items : Avl → ℕ
avl_items avl = avl.state.items

unfoldable pub avl_unique : Avl → ℕ
avl_unique avl = avl.state.unique

-- A handle and an item that are not NULL.
unfoldable pub avl_remove : Avl → List ℕ → Option (ℤ × Avl)
unfolding remove_node
avl_remove avl item = elim (remove_node avl.root item avl.state) [
  | none ↦ none
  | some (t, s) ↦ some (pos 0, record { root = t; state = s })
]
