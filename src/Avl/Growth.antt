-- ===== src/Avl/Growth.antt =====
-- Insertion of p3/avl.c and the balance of the tree: no read through NULL, and a balanced tree again.
use Prim.Native.Nat.Ordering.{lt, gt}
use jitcompilation.Prelude.{
  ℕ, suc, ◌+◌, ◌≤◌, ◌<◌, max, ◌≡◌, ◌⊎◌, inl, inr, refl, Option, none, some, List, arith, dec_lt,
  ◌∙◌, Option-cases, ℕ_discrete, subst,
}
use jitcompilation.Prelude.Int.{ℤ}
use jitcompilation.Avl.Strcmp.{strcmp, strcmp_cases}
use jitcompilation.Avl.Tree.{
  Item, Tree, leaf, node, State, depth, set_depth, is_before, is_after, turn_right, turn_left,
  fix_left, fix_right, finish, make_node, update,
}
use jitcompilation.Avl.Balance.{
  height, IsAvl, is_unbalanced_left, is_unbalanced_right, is_unbalanced_even, node-IsAvl,
  set_depth-IsAvl, Heavy, Settles, turn_right-Settles, turn_left-Settles,
}

-- What an insertion into a subtree of height `h` returns: a balanced tree as high, or one higher.
abbrev pub Grows : List ℕ → ℕ → Option (Tree × State) → Type 0
Grows w h none = ⊥
Grows w h (some (t, s)) = IsAvl t × ((height t ≡ h) ⊎ ((height t ≡ h + 1) × Heavy w t))

finish-Grows :
    (w : List ℕ) (h : ℕ) (s : State) (o : Option Tree) → Settles h o → Grows w h (finish s o)
unfolding finish
finish-Grows w h s none p = absurd p
finish-Grows w h s (some t) p =
    let (balanced, same) = set_depth-IsAvl t p.0 in (balanced, inl (same ∙ p.1))

-- The height of a subtree after an insertion into it.
abbrev pub Grown : List ℕ → ℕ → Tree → Type 0
Grown w h t = (height t ≡ h) ⊎ ((height t ≡ h + 1) × Heavy w t)

module _ (w : List ℕ) (a : ℕ) (d : ℤ) (c : ℕ) (x : Item) (s : State) where
  even_left :
      (h : ℕ) (l r : Tree)
      → strcmp w x.text ≡ lt
      → h ≤ height r + 1
      → height r ≤ h + 1
      → height l ≤ height r + 1
      → Grown w h l
      → Grown w (suc (max h (height r))) (node a (depth l r) c x l r)
  even_left h l r below left right even (inl same) = inl (omega arith)
  even_left h l r below left right even (inr (more, _)) = elim (dec_lt h (height r)) [
    | yes low ↦ inl (omega arith)
    | no high ↦ elim (ℕ_discrete h (height r)) [
      | yes level ↦ inr (omega arith, inr (inl (below, omega arith)))
      | no above ↦ absurd (omega arith)
    ]
  ]

  even_right :
      (h : ℕ) (l r : Tree)
      → strcmp w x.text ≡ gt
      → height l ≤ h + 1
      → h ≤ height l + 1
      → height r ≤ height l + 1
      → Grown w h r
      → Grown w (suc (max (height l) h)) (node a (depth l r) c x l r)
  even_right h l r above left right even (inl same) = inl (omega arith)
  even_right h l r above left right even (inr (more, _)) = elim (dec_lt h (height l)) [
    | yes low ↦ inl (omega arith)
    | no high ↦ elim (ℕ_discrete h (height l)) [
      | yes level ↦ inr (omega arith, inr (inr (above, omega arith)))
      | no below ↦ absurd (omega arith)
    ]
  ]

  Grown-Heavy :
      (h k : ℕ) (t : Tree)
      → h ≤ k + 1
      → k + 1 < height t
      → Grown w h t
      → Heavy w t × (height t ≡ k + 2)
  Grown-Heavy h k t le high (inl same) = absurd (omega arith)
  Grown-Heavy h k t le high (inr (more, heavy)) = (heavy, omega arith)

  fix_left-Grows :
      (h : ℕ) (l r : Tree)
      → IsAvl l
      → IsAvl r
      → h ≤ height r + 1
      → height r ≤ h + 1
      → strcmp w x.text ≡ lt
      → Grown w h l
      → Grows w (suc (max h (height r))) (finish s (fix_left w a d c x l r))
  unfolding fix_left finish set_depth
  fix_left-Grows h l r hl hr left right below grown = elim (dec_lt (height r + 1) (height l)) [
    | yes high ↦
        let (heavy, two) = Grown-Heavy h (height r) l left high grown in
        rw (is_unbalanced_left l r hl hr high, Grows)
          (finish-Grows w _ s _ (
            subst (λ n. Settles n (turn_right (is_before w l) (node a d c x l r))) (omega arith)
              (turn_right-Settles w a d c x l r hl hr two heavy)))
    | no low ↦
        rw (is_unbalanced_even l r hl hr (omega arith) (ground arith), Grows)
          (
            node-IsAvl a c x l r hl hr (omega arith) (ground arith),
            even_left h l r below left right (omega arith) grown,
          )
  ]

  fix_right-Grows :
      (h : ℕ) (l r : Tree)
      → IsAvl l
      → IsAvl r
      → height l ≤ h + 1
      → h ≤ height l + 1
      → strcmp w x.text ≡ gt
      → Grown w h r
      → Grows w (suc (max (height l) h)) (finish s (fix_right w a d c x l r))
  unfolding fix_right finish set_depth
  fix_right-Grows h l r hl hr left right above grown = elim (dec_lt (height l + 1) (height r)) [
    | yes high ↦
        let (heavy, two) = Grown-Heavy h (height l) r right high grown in
        rw (is_unbalanced_right l r hl hr high, Grows)
          (finish-Grows w _ s _ (
            subst (λ n. Settles n (turn_left (is_after w r) (node a d c x l r))) (omega arith)
              (turn_left-Settles w a d c x l r hl hr two heavy)))
    | no low ↦
        rw (is_unbalanced_even l r hl hr (ground arith) (omega arith), Grows)
          (
            node-IsAvl a c x l r hl hr (ground arith) (omega arith),
            even_right h l r above left right (omega arith) grown,
          )
  ]

Grows-bind :
    (w : List ℕ) (h k : ℕ) (o : Option (Tree × State)) (f : Tree → State → Option (Tree × State))
    → Grows w h o
    → ((t : Tree) (s : State) → IsAvl t → Grown w h t → Grows w k (f t s))
    → Grows w k (elim o [ none ↦ none | some (t, s) ↦ f t s ])
Grows-bind w h k none f g step = absurd g
Grows-bind w h k (some (t, s)) f g step = step t s g.0 g.1

module _ (alloc : ℕ → Option ℕ) where
  make_node-Grows : (w : List ℕ) (s : State) → Grows w 0 (some (make_node alloc w s))
  unfolding make_node
  make_node-Grows w s = elim (Option-cases (alloc s.calls)) [
    | inl e ↦ rw (e, make_node) (tt, inl refl)
    | inr (a, e) ↦ elim (Option-cases (alloc (s.calls + 1))) [
      | inl f ↦ rw (e, f, make_node) (tt, inl refl)
      | inr (q, f) ↦
          rw (e, f, make_node)
            ((refl, omega arith, omega arith, tt, tt), inr (refl, inl (refl, refl)))
    ]
  ]

  -- On a balanced tree, an insertion reads nothing through NULL, whether or not the allocations
  -- succeed, and returns a balanced tree that is as high, or one higher.
  pub update-Grows :
      (t : Tree) (w : List ℕ) (s : State) → IsAvl t → Grows w (height t) (update alloc t w s)
  unfolding update
  update-Grows leaf w s h = make_node-Grows w s
  update-Grows (node a d c x l r) w s h = elim (strcmp_cases w x.text) [
    | inl below ↦
        rw (below, update)
          (Grows-bind w (height l) _ (update alloc l w s)
            (λ l' s'. finish s' (fix_left w a d c x l' r)) (update-Grows l w s h.3)
            λ l' s' hl' grown.
              fix_left-Grows w a d c x s' (height l) l' r hl' h.4 h.1 h.2 below grown)
    | inr (inl same) ↦
        rw (same, update)
          (unfold set_depth in (node-IsAvl a (c + 1) x l r h.3 h.4 h.1 h.2, inl refl))
    | inr (inr above) ↦
        rw (above, update)
          (Grows-bind w (height r) _ (update alloc r w s)
            (λ r' s'. finish s' (fix_right w a d c x l r')) (update-Grows r w s h.4)
            λ r' s' hr' grown.
              fix_right-Grows w a d c x s' (height r) l r' h.3 hr' h.1 h.2 above grown)
  ]
