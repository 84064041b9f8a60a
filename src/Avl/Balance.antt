-- ===== src/Avl/Balance.antt =====
-- The balance of the tree of p3/avl.c: the depths that the nodes keep are right, and the subtrees of
-- a node differ by at most one in height.
use Prim.Native.Nat.Ordering.{lt, gt}
use jitcompilation.Prelude.{
  ℕ, suc, ◌+◌, ◌≤◌, ◌<◌, max, ◌≡◌, ◌⊎◌, inl, inr, refl, true, false, Option, none, some, List,
  arith, if◌then◌else◌, ltb, ap, ◌∙◌,
}
use jitcompilation.Prelude.Int.{ℤ, pos, ◌+ℤ◌, ◌-ℤ◌}
use jitcompilation.Avl.Strcmp.{strcmp}
use jitcompilation.Avl.Tree.{
  Item, Tree, leaf, node, depth, rotate_right, rotate_left, rotate_left_right, rotate_right_left,
  set_depth, is_before, is_after, is_unbalanced, turn_right, turn_left,
}

abbrev pub height : Tree → ℕ
height leaf = 0
height (node a d c x l r) = suc (max (height l) (height r))

abbrev pub IsAvl : Tree → Type 0
IsAvl leaf = Unit
IsAvl (node a d c x l r) =
    (d ≡ pos (max (height l) (height r)))
    × (height l ≤ height r + 1)
    × (height r ≤ height l + 1)
    × IsAvl l
    × IsAvl r

pub depth_lem : (l r : Tree) → IsAvl l → IsAvl r → depth l r ≡ pos (max (height l) (height r))
unfolding depth ◌+ℤ◌
depth_lem leaf leaf hl hr = refl
depth_lem leaf (node a d c x l r) hl hr = rw hr.0 (ground arith)
depth_lem (node a d c x l r) leaf hl hr = rw hl.0 (ground arith)
depth_lem (node a d c x l r) (node a' d' c' x' l' r') hl hr = rw (hl.0, hr.0) (ground arith)

is_unbalanced_lem :
    (l r : Tree)
    → IsAvl l
    → IsAvl r
    → is_unbalanced l r
      ≡ (if ltb (height r + 1) (height l) then true else ltb (height l + 1) (height r))
unfolding is_unbalanced ◌-ℤ◌
is_unbalanced_lem leaf leaf hl hr = refl
is_unbalanced_lem leaf (node a d c x l r) hl hr = rw hr.0 (ground arith)
is_unbalanced_lem (node a d c x l r) leaf hl hr = rw hl.0 (ground arith)
is_unbalanced_lem (node a d c x l r) (node a' d' c' x' l' r') hl hr = rw (hl.0, hr.0) (ground arith)

pub is_unbalanced_left :
    (l r : Tree) → IsAvl l → IsAvl r → height r + 1 < height l → is_unbalanced l r ≡ true
is_unbalanced_left l r hl hr high = is_unbalanced_lem l r hl hr ∙ ground arith

pub is_unbalanced_right :
    (l r : Tree) → IsAvl l → IsAvl r → height l + 1 < height r → is_unbalanced l r ≡ true
is_unbalanced_right l r hl hr high = is_unbalanced_lem l r hl hr ∙ ground arith

pub is_unbalanced_even :
    (l r : Tree)
    → IsAvl l
    → IsAvl r
    → height l ≤ height r + 1
    → height r ≤ height l + 1
    → is_unbalanced l r ≡ false
is_unbalanced_even l r hl hr left right = is_unbalanced_lem l r hl hr ∙ ground arith

pub node-IsAvl :
    (a c : ℕ) (x : Item) (l r : Tree)
    → IsAvl l
    → IsAvl r
    → height l ≤ height r + 1
    → height r ≤ height l + 1
    → IsAvl (node a (depth l r) c x l r)
node-IsAvl a c x l r hl hr left right = (depth_lem l r hl hr, left, right, hl, hr)

-- rotate_left takes the depth of the right subtree first.
mirror-IsAvl :
    (a c : ℕ) (x : Item) (l r : Tree)
    → IsAvl l
    → IsAvl r
    → height l ≤ height r + 1
    → height r ≤ height l + 1
    → IsAvl (node a (depth r l) c x l r)
mirror-IsAvl a c x l r hl hr left right =
    (depth_lem r l hr hl ∙ ap pos (omega arith), left, right, hl, hr)

pub set_depth-IsAvl : (t : Tree) → IsAvl t → IsAvl (set_depth t) × (height (set_depth t) ≡ height t)
unfolding set_depth
set_depth-IsAvl leaf h = (tt, refl)
set_depth-IsAvl (node a d c x l r) h = (node-IsAvl a c x l r h.3 h.4 h.1 h.2, refl)

-- The insertion of `w` went to the higher side of this tree, or made it.
abbrev pub Heavy : List ℕ → Tree → Type 0
Heavy w leaf = ⊥
Heavy w (node a d c x l r) =
    ((height l ≡ 0) × (height r ≡ 0))
    ⊎ ((strcmp w x.text ≡ lt) × (height l ≡ height r + 1))
    ⊎ ((strcmp w x.text ≡ gt) × (height r ≡ height l + 1))

-- A balanced tree of the height `h` is returned.
abbrev pub Settles : ℕ → Option Tree → Type 0
Settles h none = ⊥
Settles h (some t) = IsAvl t × (height t ≡ h)

module _ (a : ℕ) (d : ℤ) (c : ℕ) (x : Item) (a' : ℕ) (d' : ℤ) (c' : ℕ) (x' : Item) where
  pub rotate_right-Settles :
      (ll lr r : Tree)
      → IsAvl ll
      → IsAvl lr
      → IsAvl r
      → height ll ≡ height r + 1
      → height r ≤ height lr
      → height lr ≤ height r + 1
      → (h : ℕ) → h ≡ height lr + 2
      → Settles h (rotate_right (node a d c x (node a' d' c' x' ll lr) r))
  unfolding rotate_right
  rotate_right-Settles ll lr r hll hlr hr steep low high h e =
      let below = node-IsAvl a c x lr r hlr hr (omega arith) (omega arith) in
      (node-IsAvl a' c' x' ll _ hll below (omega arith) (omega arith), omega arith)

  pub rotate_left-Settles :
      (l rl rr : Tree)
      → IsAvl l
      → IsAvl rl
      → IsAvl rr
      → height rr ≡ height l + 1
      → height l ≤ height rl
      → height rl ≤ height l + 1
      → (h : ℕ) → h ≡ height rl + 2
      → Settles h (rotate_left (node a d c x l (node a' d' c' x' rl rr)))
  unfolding rotate_left
  rotate_left-Settles l rl rr hl hrl hrr steep low high h e =
      let below = node-IsAvl a c x l rl hl hrl (omega arith) (omega arith) in
      (mirror-IsAvl a' c' x' _ rr below hrr (omega arith) (omega arith), omega arith)

  module _ (a2 : ℕ) (d2 : ℤ) (c2 : ℕ) (x2 : Item) (m n : Tree) (hm : IsAvl m) (hn : IsAvl n) where
    pub rotate_left_right-Settles :
        (l r : Tree)
        → IsAvl l
        → IsAvl r
        → height l ≡ height r
        → max (height m) (height n) ≡ height r
        → height m ≤ height n + 1
        → height n ≤ height m + 1
        → Settles
            (height r + 2)
            (rotate_left_right (node a d c x (node a' d' c' x' l (node a2 d2 c2 x2 m n)) r))
    unfolding rotate_left_right
    rotate_left_right-Settles l r hl hr even inner left right =
        let first = node-IsAvl a' c' x' l m hl hm (omega arith) (omega arith) in
        let second = node-IsAvl a c x n r hn hr (omega arith) (omega arith) in
        (node-IsAvl a2 c2 x2 _ _ first second (omega arith) (omega arith), omega arith)

    pub rotate_right_left-Settles :
        (l r : Tree)
        → IsAvl l
        → IsAvl r
        → height r ≡ height l
        → max (height m) (height n) ≡ height l
        → height m ≤ height n + 1
        → height n ≤ height m + 1
        → Settles
            (height l + 2)
            (rotate_right_left (node a d c x l (node a' d' c' x' (node a2 d2 c2 x2 m n) r)))
    unfolding rotate_right_left
    rotate_right_left-Settles l r hl hr even inner left right =
        let first = node-IsAvl a c x l m hl hm (omega arith) (omega arith) in
        let second = node-IsAvl a' c' x' n r hn hr (omega arith) (omega arith) in
        (mirror-IsAvl a2 c2 x2 _ _ first second (omega arith) (omega arith), omega arith)

pub turn_right-Settles :
    (w : List ℕ) (a : ℕ) (d : ℤ) (c : ℕ) (x : Item) (l r : Tree)
    → IsAvl l
    → IsAvl r
    → height l ≡ height r + 2
    → Heavy w l
    → Settles (height r + 2) (turn_right (is_before w l) (node a d c x l r))
unfolding turn_right is_before
turn_right-Settles w a d c x leaf r hl hr two heavy = ground arith
turn_right-Settles w a d c x (node a' d' c' x' ll lr) r hl hr two (inl low) = ground arith
turn_right-Settles w a d c x (node a' d' c' x' ll lr) r hl hr two (inr (inl (below, steep))) =
    rw (below, Settles)
      (rotate_right-Settles a d c x a' d' c' x' ll lr r hl.3 hl.4 hr (omega arith) (omega arith)
        (omega arith) _ (omega arith))
turn_right-Settles w a d c x (node a' d' c' x' ll leaf) r hl hr two (inr (inr (above, steep))) =
    ground arith
turn_right-Settles w a d c x (node a' d' c' x' ll (node a2 d2 c2 x2 m n)) r hl hr two
      (inr (inr (above, steep))) =
    let inner = hl.4 in
    rw (above, Settles)
      (rotate_left_right-Settles a d c x a' d' c' x' a2 d2 c2 x2 m n inner.3 inner.4 ll r hl.3 hr
        (omega arith) (omega arith) inner.1 inner.2)

pub turn_left-Settles :
    (w : List ℕ) (a : ℕ) (d : ℤ) (c : ℕ) (x : Item) (l r : Tree)
    → IsAvl l
    → IsAvl r
    → height r ≡ height l + 2
    → Heavy w r
    → Settles (height l + 2) (turn_left (is_after w r) (node a d c x l r))
unfolding turn_left is_after
turn_left-Settles w a d c x l leaf hl hr two heavy = ground arith
turn_left-Settles w a d c x l (node a' d' c' x' rl rr) hl hr two (inl low) = ground arith
turn_left-Settles w a d c x l (node a' d' c' x' rl rr) hl hr two (inr (inr (above, steep))) =
    rw (above, Settles)
      (rotate_left-Settles a d c x a' d' c' x' l rl rr hl hr.3 hr.4 (omega arith) (omega arith)
        (omega arith) _ (omega arith))
turn_left-Settles w a d c x l (node a' d' c' x' leaf rr) hl hr two (inr (inl (below, steep))) =
    ground arith
turn_left-Settles w a d c x l (node a' d' c' x' (node a2 d2 c2 x2 m n) rr) hl hr two
      (inr (inl (below, steep))) =
    let inner = hr.3 in
    rw (below, Settles)
      (rotate_right_left-Settles a d c x a' d' c' x' a2 d2 c2 x2 m n inner.3 inner.4 l rr hl hr.4
        (omega arith) (omega arith) inner.1 inner.2)
