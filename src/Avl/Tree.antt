-- ===== src/Avl/Tree.antt =====
-- The nodes of p3/avl.c and the functions on them. A pointer to a node is a tree, NULL is `leaf`.
use Prim.Native.Nat.Ordering.{lt, eq, gt}
use jitcompilation.Prelude.{
  ℕ, ◌+◌, Bool, true, false, Option, none, some, List, [], ◌∷◌, ◌++◌, if◌then◌else◌, ltb,
}
use jitcompilation.Prelude.Int.{ℤ, pos, negsuc, ◌+ℤ◌, ◌-ℤ◌, ltb_ℤ, abs}
use jitcompilation.Avl.Strcmp.{strcmp}

-- A word in the heap: its address, and its text.
pub record Item : Type 0 where
  pub address : ℕ
  pub text : List ℕ

-- `struct node`, with its address, `depth`, `count`, `item`, `left` and `right`.
pub data Tree : Type 0 where
  leaf : Tree
  node : ℕ → ℤ → ℕ → Item → Tree → Tree → Tree

-- `struct state` without the root. `calls` is the number of calls of scm_malloc and scm_strdup so
-- far, and `freed` lists the arguments of the calls of scm_free.
pub record State : Type 0 where
  pub items : ℕ
  pub unique : ℕ
  pub calls : ℕ
  pub freed : List ℕ

unfoldable pub delta : Tree → ℤ
delta leaf = negsuc 0
delta (node a d c x l r) = d

-- of a node with the subtrees `l` and `r`
unfoldable pub balance : Tree → Tree → ℤ
unfolding delta
balance l r = delta l -ℤ delta r

unfoldable pub depth : Tree → Tree → ℤ
unfolding delta
depth a b = if ltb_ℤ (delta b) (delta a) then delta a +ℤ pos 1 else delta b +ℤ pos 1

-- `none` is a read through NULL.
unfoldable pub rotate_right : Tree → Option Tree
rotate_right (node a d c x (node a' d' c' x' ll lr) r) =
    let below = node a (depth lr r) c x lr r in some (node a' (depth ll below) c' x' ll below)
rotate_right t = none

unfoldable pub rotate_left : Tree → Option Tree
rotate_left (node a d c x l (node a' d' c' x' rl rr)) =
    let below = node a (depth l rl) c x l rl in some (node a' (depth rr below) c' x' below rr)
rotate_left t = none

unfoldable pub rotate_left_right : Tree → Option Tree
unfolding rotate_left rotate_right
rotate_left_right (node a d c x l r) = elim (rotate_left l) [
  | none ↦ none
  | some l' ↦ rotate_right (node a d c x l' r)
]
rotate_left_right leaf = none

unfoldable pub rotate_right_left : Tree → Option Tree
unfolding rotate_left rotate_right
rotate_right_left (node a d c x l r) = elim (rotate_right r) [
  | none ↦ none
  | some r' ↦ rotate_left (node a d c x l r')
]
rotate_right_left leaf = none

-- `root->depth = depth(root->left, root->right)`
unfoldable pub set_depth : Tree → Tree
set_depth leaf = leaf
set_depth (node a d c x l r) = node a (depth l r) c x l r

-- strcmp(item, root->item) < 0, at a root that is not NULL
unfoldable pub is_before : List ℕ → Tree → Option Bool
is_before w leaf = none
is_before w (node a d c x l r) = elim (strcmp w x.text) [ lt ↦ some true | _ ↦ some false ]

-- strcmp(item, root->item) > 0, at a root that is not NULL
unfoldable pub is_after : List ℕ → Tree → Option Bool
is_after w leaf = none
is_after w (node a d c x l r) = elim (strcmp w x.text) [ gt ↦ some true | _ ↦ some false ]

unfoldable pub is_unbalanced : Tree → Tree → Bool
unfolding balance
is_unbalanced l r = ltb 1 (abs (balance l r))

-- The choice between the rotations, on the answer of is_before or is_after.
unfoldable pub turn_right : Option Bool → Tree → Option Tree
turn_right none t = none
turn_right (some true) t = rotate_right t
turn_right (some false) t = rotate_left_right t

unfoldable pub turn_left : Option Bool → Tree → Option Tree
turn_left none t = none
turn_left (some true) t = rotate_left t
turn_left (some false) t = rotate_right_left t

-- What follows the insertion on the left, at the node with the new left subtree.
unfoldable pub fix_left : List ℕ → ℕ → ℤ → ℕ → Item → Tree → Tree → Option Tree
unfolding turn_right is_unbalanced is_before rotate_right rotate_left_right
fix_left w a d c x l r =
    if is_unbalanced l r
    then turn_right (is_before w l) (node a d c x l r)
    else some (node a d c x l r)

unfoldable pub fix_right : List ℕ → ℕ → ℤ → ℕ → Item → Tree → Tree → Option Tree
unfolding turn_left is_unbalanced is_after rotate_left rotate_right_left
fix_right w a d c x l r =
    if is_unbalanced l r
    then turn_left (is_after w r) (node a d c x l r)
    else some (node a d c x l r)

-- `root->depth = depth(root->left, root->right); return root;`
unfoldable pub finish : State → Option Tree → Option (Tree × State)
finish s none = none
finish s (some t) = some (set_depth t, s)

-- The n-th call of scm_malloc or scm_strdup returns the address `alloc n`, or NULL.
module _ (alloc : ℕ → Option ℕ) where
  -- The insertion at NULL.
  unfoldable pub make_node : List ℕ → State → Tree × State
  make_node w s = elim (alloc s.calls) [
    | none ↦ (leaf, record s { calls = s.calls + 1 })
    | some a ↦ elim (alloc (s.calls + 1)) [
      | none ↦ (leaf, record s { calls = s.calls + 2 })
      | some p ↦ (
        node a (pos 0) 1 (record { address = p; text = w }) leaf leaf,
        record s { items = s.items + 1; unique = s.unique + 1; calls = s.calls + 2 },
      )
    ]
  ]

  -- The tree that is returned, with the state; `none` is a read through NULL.
  unfoldable pub update : Tree → List ℕ → State → Option (Tree × State)
  update leaf w s = some (make_node w s)
  update (node a d c x l r) w s = elim (strcmp w x.text) [
    | eq ↦ some (set_depth (node a d (c + 1) x l r), record s { items = s.items + 1 })
    | lt ↦ elim (update l w s) [ none ↦ none | some (l', s') ↦ finish s' (fix_left w a d c x l' r) ]
    | gt ↦ elim (update r w s) [
      | none ↦ none
      | some (r', s') ↦ finish s' (fix_right w a d c x l r')
    ]
  ]

-- The loop of avl_exists.
unfoldable pub exists : Tree → List ℕ → ℕ
exists leaf w = 0
exists (node a d c x l r) w = elim (strcmp w x.text) [ eq ↦ c | lt ↦ exists l w | gt ↦ exists r w ]

-- The calls of `fnc`, in order: the word and its count.
unfoldable pub traverse : Tree → List (List ℕ × ℕ)
traverse leaf = []
traverse (node a d c x l r) = traverse l ++ (x.text, c) ∷ traverse r
