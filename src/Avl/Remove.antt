-- ===== src/Avl/Remove.antt =====
-- remove_node of p3/avl.c.
use Prim.Native.Nat.Ordering.{lt, eq, gt}
use jitcompilation.Prelude.{
  ℕ, suc, ◌-◌, ◌^◌, zero, true, false, Option, none, some, List, ◌∷◌, if◌then◌else◌, ltb,
}
use jitcompilation.Prelude.Int.{ℤ, pos, negsuc, ltb_ℤ}
use jitcompilation.Avl.Strcmp.{strcmp}
use jitcompilation.Avl.Tree.{
  Item, Tree, leaf, node, State, balance, depth, rotate_right, rotate_left, rotate_left_right,
  rotate_right_left,
}

-- The loop `while (temp->left)`, at a node with this count, item and left subtree; of a node with
-- this count, item and right subtree, the count and item that follow.
unfoldable pub leftmost : ℕ → Item → Tree → ℕ × Item
leftmost c x leaf = (c, x)
leftmost c x (node a' d' c' x' l r) = leftmost c' x' l

-- balance(root), where it reads through `root`
unfoldable pub balance_of : Tree → Option ℤ
unfolding balance
balance_of leaf = none
balance_of (node a d c x l r) = some (balance l r)

-- The rotations at the end of remove_node, on the balance of the root and those of its subtrees,
-- which are read only where the root leans.
unfoldable pub lean_left : Option ℤ → Tree → Option Tree
unfolding rotate_right rotate_left_right
lean_left none t = none
lean_left (some b) t = if ltb_ℤ b (pos 0) then rotate_left_right t else rotate_right t

unfoldable pub lean_right : Option ℤ → Tree → Option Tree
unfolding rotate_left rotate_right_left
lean_right none t = none
lean_right (some b) t = if ltb_ℤ (pos 0) b then rotate_right_left t else rotate_left t

-- From `if (!root)` to the end.
unfoldable pub settle : Tree → Option Tree
unfolding lean_left lean_right balance_of depth balance
settle leaf = some leaf
settle (node a d c x l r) =
    let t = node a (depth l r) c x l r in
    let bal = balance l r in
    if ltb_ℤ (pos 1) bal
    then lean_left (balance_of l) t
    else if ltb_ℤ bal (negsuc 0)
    then lean_right (balance_of r) t
    else some t

unfoldable pub settled : Option (Tree × State) → Option (Tree × State)
unfolding settle
settled none = none
settled (some (t, s)) = elim (settle t) [ none ↦ none | some t' ↦ some (t', s) ]

-- `--n` on a uint64_t
unfoldable pub decrement : ℕ → ℕ
decrement zero = 2 ^ 64 - 1
decrement (suc n) = n

-- `scm_free(temp->item); scm_free(temp); --items; --unique;`
unfoldable pub release : Item → ℕ → State → State
unfolding decrement
release x a s = record {
  items = decrement s.items;
  unique = decrement s.unique;
  calls = s.calls;
  freed = a ∷ x.address ∷ s.freed;
}

-- The branch with a subtree missing: a leaf goes, and over another node its child is copied.
unfoldable pub unlink : ℕ → Item → Tree → Tree → State → Option (Tree × State)
unfolding release
unlink a x leaf leaf s = some (leaf, release x a s)
unlink a x leaf (node a' d' c' x' l' r') s = some (node a d' c' x' l' r', release x' a' s)
unlink a x (node a' d' c' x' l' r') r s = some (node a d' c' x' l' r', release x' a' s)

-- The node that loses its word: with a subtree missing it is unlinked, else it takes the count and
-- the item of the leftmost node on its right, which `removed` is the removal of.
unfoldable pub vacate :
    ℕ → ℤ → Item → Tree → Tree → State → ℕ × Item → Option (Tree × State) → Option (Tree × State)
unfolding unlink
vacate a d x leaf r s (c, y) removed = unlink a x leaf r s
vacate a d x (node a1 d1 c1 x1 l1 r1) leaf s (c, y) removed =
    unlink a x (node a1 d1 c1 x1 l1 r1) leaf s
vacate a d x (node a1 d1 c1 x1 l1 r1) (node a2 d2 c2 x2 l2 r2) s (c, y) none = none
vacate a d x (node a1 d1 c1 x1 l1 r1) (node a2 d2 c2 x2 l2 r2) s (c, y) (some (r', s')) =
    some (node a d c y (node a1 d1 c1 x1 l1 r1) r', s')

unfoldable pub remove_node : Tree → List ℕ → State → Option (Tree × State)
unfolding settled leftmost vacate decrement
remove_node leaf w s = some (leaf, s)
remove_node (node a d c x l r) w s = elim (strcmp w x.text) [
  | lt ↦
      settled
        (elim (remove_node l w s) [ none ↦ none | some (l', s') ↦ some (node a d c x l' r, s') ])
  | gt ↦
      settled
        (elim (remove_node r w s) [ none ↦ none | some (r', s') ↦ some (node a d c x l r', s') ])
  | eq ↦ elim (ltb 1 c) [
    | true ↦ some (node a d (c - 1) x l r, record s { items = decrement s.items })
    | false ↦
        settled (vacate a d x l r s (leftmost c x r) (remove_node r (leftmost c x r).1.text s))
  ]
]
