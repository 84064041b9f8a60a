-- ===== src/Avl/Settle.antt =====
-- The end of remove_node of p3/avl.c: the rotations that balance a node again.
use jitcompilation.Prelude.{
  ℕ, suc, ◌+◌, ◌≤◌, ◌<◌, max, ◌≡◌, ◌⊎◌, inl, inr, refl, ap, ◌∙◌, subst, true, false, Option, none,
  some, arith, ltb, dec_lt,
}
use jitcompilation.Prelude.Int.{ℤ, pos, negsuc, ◌-ℤ◌, ltb_ℤ}
use jitcompilation.Avl.Tree.{
  Item, Tree, leaf, node, delta, balance, depth, rotate_right, rotate_left, rotate_left_right,
  rotate_right_left,
}
use jitcompilation.Avl.Remove.{balance_of, lean_left, lean_right, settle}
use jitcompilation.Avl.Balance.{
  height, IsAvl, node-IsAvl, Settles, rotate_right-Settles, rotate_left-Settles,
  rotate_left_right-Settles, rotate_right_left-Settles,
}

delta_lem : (t : Tree) → IsAvl t → delta t ≡ pos (height t) -ℤ pos 1
unfolding delta ◌-ℤ◌
delta_lem leaf h = refl
delta_lem (node a d c x l r) h = rw h.0 (ground arith)

lt_true : (m n : ℕ) → m < n → ltb m n ≡ true
lt_true m n h = ground arith

lt_false : (m n : ℕ) → ¬ (m < n) → ltb m n ≡ false
lt_false m n h = ground arith

-- The tests on the balance, on heights.
module _ (l r : Tree) (hl : IsAvl l) (hr : IsAvl r) where
  leans_left : ltb_ℤ (pos 1) (balance l r) ≡ ltb (height r + 1) (height l)
  unfolding balance ◌-ℤ◌
  leans_left = rw (delta_lem l hl, delta_lem r hr) (ground arith)

  leans_right : ltb_ℤ (balance l r) (negsuc 0) ≡ ltb (height l + 1) (height r)
  unfolding balance ◌-ℤ◌
  leans_right = rw (delta_lem l hl, delta_lem r hr) (ground arith)

  is_lower_left : ltb_ℤ (balance l r) (pos 0) ≡ ltb (height l) (height r)
  unfolding balance ◌-ℤ◌
  is_lower_left = rw (delta_lem l hl, delta_lem r hr) (ground arith)

  is_lower_right : ltb_ℤ (pos 0) (balance l r) ≡ ltb (height r) (height l)
  unfolding balance ◌-ℤ◌
  is_lower_right = rw (delta_lem l hl, delta_lem r hr) (ground arith)

-- A balanced tree is returned, of the height `h` or one lower.
abbrev pub Loses : ℕ → Option Tree → Type 0
Loses h none = ⊥
Loses h (some t) = IsAvl t × ((height t ≡ h) ⊎ (height t + 1 ≡ h))

keeps : (h : ℕ) (o : Option Tree) → Settles h o → Loses h o
keeps h none p = absurd p
keeps h (some t) p = (p.0, inl p.1)

pub loses : (h k : ℕ) (o : Option Tree) → h + 1 ≡ k → Settles h o → Loses k o
loses h k none e p = absurd p
loses h k (some t) e p = (p.0, inr (ap (λ n. n + 1) p.1 ∙ e))

module _ (a : ℕ) (d : ℤ) (c : ℕ) (x : Item) where
  right_turned :
      (a' : ℕ) (d' : ℤ) (c' : ℕ) (x' : Item) (ll lr r : Tree)
      → IsAvl ll
      → IsAvl lr
      → IsAvl r
      → height ll ≡ height r + 1
      → height r ≤ height lr
      → height lr ≤ height r + 1
      → Loses (height r + 3) (rotate_right (node a d c x (node a' d' c' x' ll lr) r))
  right_turned a' d' c' x' ll lr r hll hlr hr steep low high =
      elim (dec_lt (height r) (height lr)) [
        | yes more ↦ keeps _ _ (
            rotate_right-Settles a d c x a' d' c' x' ll lr r hll hlr hr steep low high
              (height r + 3) (omega arith))
        | no same ↦ loses (height r + 2) _ _ (omega arith) (
            rotate_right-Settles a d c x a' d' c' x' ll lr r hll hlr hr steep low high _
              (omega arith))
      ]

  left_right_turned :
      (a' : ℕ) (d' : ℤ) (c' : ℕ) (x' : Item) (ll lr r : Tree)
      → IsAvl ll
      → IsAvl lr
      → IsAvl r
      → height lr ≡ height r + 1
      → height ll ≡ height r
      → Loses (height r + 3) (rotate_left_right (node a d c x (node a' d' c' x' ll lr) r))
  left_right_turned a' d' c' x' ll leaf r hll hlr hr steep even = absurd (omega arith)
  left_right_turned a' d' c' x' ll (node a2 d2 c2 x2 m n) r hll hlr hr steep even =
      loses (height r + 2) _ _ (omega arith) (
        rotate_left_right-Settles a d c x a' d' c' x' a2 d2 c2 x2 m n hlr.3 hlr.4 ll r hll hr even
          (omega arith) hlr.1 hlr.2)

  lean_left-Loses :
      (l r : Tree)
      → IsAvl l
      → IsAvl r
      → height l ≡ height r + 2
      → Loses (height r + 3) (lean_left (balance_of l) (node a d c x l r))
  unfolding lean_left balance_of
  lean_left-Loses leaf r hl hr two = absurd (omega arith)
  lean_left-Loses (node a' d' c' x' ll lr) r hl hr two = elim (dec_lt (height ll) (height lr)) [
    | no low ↦
        rw (is_lower_left ll lr hl.3 hl.4, lt_false (height ll) (height lr) low, Loses)
          (right_turned a' d' c' x' ll lr r hl.3 hl.4 hr (ground arith) (ground arith)
            (ground arith))
    | yes low ↦
        rw (is_lower_left ll lr hl.3 hl.4, lt_true (height ll) (height lr) low, Loses)
          (left_right_turned a' d' c' x' ll lr r hl.3 hl.4 hr (ground arith) (ground arith))
  ]

  left_turned :
      (a' : ℕ) (d' : ℤ) (c' : ℕ) (x' : Item) (l rl rr : Tree)
      → IsAvl l
      → IsAvl rl
      → IsAvl rr
      → height rr ≡ height l + 1
      → height l ≤ height rl
      → height rl ≤ height l + 1
      → Loses (height l + 3) (rotate_left (node a d c x l (node a' d' c' x' rl rr)))
  left_turned a' d' c' x' l rl rr hl hrl hrr steep low high = elim (dec_lt (height l) (height rl)) [
    | yes more ↦ keeps _ _ (
        rotate_left-Settles a d c x a' d' c' x' l rl rr hl hrl hrr steep low high (height l + 3)
          (omega arith))
    | no same ↦
        loses (height l + 2) _ _ (omega arith) (
          rotate_left-Settles a d c x a' d' c' x' l rl rr hl hrl hrr steep low high _ (omega arith))
  ]

  right_left_turned :
      (a' : ℕ) (d' : ℤ) (c' : ℕ) (x' : Item) (l rl rr : Tree)
      → IsAvl l
      → IsAvl rl
      → IsAvl rr
      → height rl ≡ height l + 1
      → height rr ≡ height l
      → Loses (height l + 3) (rotate_right_left (node a d c x l (node a' d' c' x' rl rr)))
  right_left_turned a' d' c' x' l leaf rr hl hrl hrr steep even = absurd (omega arith)
  right_left_turned a' d' c' x' l (node a2 d2 c2 x2 m n) rr hl hrl hrr steep even =
      loses (height l + 2) _ _ (omega arith) (
        rotate_right_left-Settles a d c x a' d' c' x' a2 d2 c2 x2 m n hrl.3 hrl.4 l rr hl hrr even
          (omega arith) hrl.1 hrl.2)

  lean_right-Loses :
      (l r : Tree)
      → IsAvl l
      → IsAvl r
      → height r ≡ height l + 2
      → Loses (height l + 3) (lean_right (balance_of r) (node a d c x l r))
  unfolding lean_right balance_of
  lean_right-Loses l leaf hl hr two = absurd (omega arith)
  lean_right-Loses l (node a' d' c' x' rl rr) hl hr two = elim (dec_lt (height rr) (height rl)) [
    | no low ↦
        rw (is_lower_right rl rr hr.3 hr.4, lt_false (height rr) (height rl) low, Loses)
          (left_turned a' d' c' x' l rl rr hl hr.3 hr.4 (ground arith) (ground arith)
            (ground arith))
    | yes low ↦
        rw (is_lower_right rl rr hr.3 hr.4, lt_true (height rr) (height rl) low, Loses)
          (right_left_turned a' d' c' x' l rl rr hl hr.3 hr.4 (ground arith) (ground arith))
  ]

-- Subtrees that differ by at most two in height are balanced again.
pub settle-Loses :
    (a : ℕ) (d : ℤ) (c : ℕ) (x : Item) (l r : Tree)
    → IsAvl l
    → IsAvl r
    → height l ≤ height r + 2
    → height r ≤ height l + 2
    → Loses (suc (max (height l) (height r))) (settle (node a d c x l r))
unfolding settle
settle-Loses a d c x l r hl hr left right = elim (dec_lt (height r + 1) (height l)) [
  | yes high ↦
      rw (leans_left l r hl hr, lt_true _ _ high, settle)
        (subst (λ n. Loses n (lean_left (balance_of l) (node a (depth l r) c x l r))) (omega arith)
          (lean_left-Loses a (depth l r) c x l r hl hr (omega arith)))
  | no low ↦ elim (dec_lt (height l + 1) (height r)) [
    | yes high ↦
        rw (leans_left l r hl hr, leans_right l r hl hr, lt_false _ _ low, lt_true _ _ high, settle)
          (subst (λ n. Loses n (lean_right (balance_of r) (node a (depth l r) c x l r)))
            (omega arith) (lean_right-Loses a (depth l r) c x l r hl hr (omega arith)))
    | no even ↦
        rw
          (leans_left l r hl hr, leans_right l r hl hr, lt_false _ _ low, lt_false _ _ even, settle)
          (node-IsAvl a c x l r hl hr (omega arith) (omega arith), inl refl)
  ]
]

pub settle-Settles :
    (a : ℕ) (d : ℤ) (c : ℕ) (x : Item) (l r : Tree)
    → IsAvl l
    → IsAvl r
    → height l ≤ height r + 1
    → height r ≤ height l + 1
    → Settles (suc (max (height l) (height r))) (settle (node a d c x l r))
unfolding settle
settle-Settles a d c x l r hl hr left right =
    rw
      (
        leans_left l r hl hr,
        leans_right l r hl hr,
        lt_false (height r + 1) (height l) (omega arith),
        lt_false (height l + 1) (height r) (omega arith),
        settle,
      )
      (node-IsAvl a c x l r hl hr left right, refl)
