-- ===== src/Avl/Shrink.antt =====
-- remove_node of p3/avl.c and the balance of the tree: no read through NULL, and a balanced tree again.
use jitcompilation.Prelude.{
  ℕ, suc, ◌+◌, ◌≤◌, max, ◌≡◌, ◌⊎◌, inl, inr, refl, subst, Option, none, some, List, arith, ltb,
  dec_lt, Bool-cases,
}
use jitcompilation.Prelude.Int.{ℤ}
use jitcompilation.Avl.Strcmp.{strcmp_cases}
use jitcompilation.Avl.Tree.{Item, Tree, leaf, node, State}
use jitcompilation.Avl.Remove.{leftmost, settle, settled, unlink, vacate, remove_node}
use jitcompilation.Avl.Balance.{height, IsAvl, Settles}
use jitcompilation.Avl.Settle.{Loses, loses, settle-Loses, settle-Settles}

-- The subtrees of a node as they were, and after a removal from one.
settle-after :
    (a : ℕ) (d : ℤ) (c : ℕ) (x : Item) (l r : Tree)
    → IsAvl l
    → IsAvl r
    → (h : ℕ) → height l ≤ height r + 2
    → height r ≤ height l + 2
    → (suc (max (height l) (height r)) ≡ h)
      ⊎ ((suc (max (height l) (height r)) + 1 ≡ h)
          × (height l ≤ height r + 1)
          × (height r ≤ height l + 1))
    → Loses h (settle (node a d c x l r))
settle-after a d c x l r hl hr h left right (inl e) =
    subst (λ n. Loses n (settle (node a d c x l r))) e (settle-Loses a d c x l r hl hr left right)
settle-after a d c x l r hl hr h left right (inr (e, even, also)) =
    loses _ h _ e (settle-Settles a d c x l r hl hr even also)

-- What a removal from a subtree of height `h` returns.
abbrev pub Shrinks : ℕ → Option (Tree × State) → Type 0
Shrinks h none = ⊥
Shrinks h (some (t, s)) = IsAvl t × ((height t ≡ h) ⊎ (height t + 1 ≡ h))

settled-Shrinks :
    (h : ℕ) (t : Tree) (s : State) → Loses h (settle t) → Shrinks h (settled (some (t, s)))
unfolding settled
settled-Shrinks h t s p = go (settle t) p
  where
    go : (o : Option Tree) → Loses h o → Shrinks h (elim o [ none ↦ none | some t' ↦ some (t', s) ])
    go none p = absurd p
    go (some t') p = p

module _ (a : ℕ) (d : ℤ) (c : ℕ) (x : Item) (l r : Tree) (h : IsAvl (node a d c x l r)) where
  shrunk_left :
      (o : Option (Tree × State))
      → Shrinks (height l) o
      → Shrinks
          (suc (max (height l) (height r)))
          (settled (elim o [ none ↦ none | some (l', s') ↦ some (node a d c x l' r, s') ]))
  shrunk_left none p = absurd p
  shrunk_left (some (l', s')) (hl', same) =
      settled-Shrinks _ _ s'
        (settle-after a d c x l' r hl' h.4 _ (omega arith) (omega arith) (lower same))
    where
      lower :
          (height l' ≡ height l) ⊎ (height l' + 1 ≡ height l)
          → (suc (max (height l') (height r)) ≡ suc (max (height l) (height r)))
            ⊎ ((suc (max (height l') (height r)) + 1 ≡ suc (max (height l) (height r)))
                × (height l' ≤ height r + 1)
                × (height r ≤ height l' + 1))
      lower (inl e) = inl (omega arith)
      lower (inr e) = elim (dec_lt (height r) (height l)) [
        | yes high ↦ inr (omega arith, omega arith, omega arith)
        | no low ↦ inl (omega arith)
      ]

  shrunk_right :
      (o : Option (Tree × State))
      → Shrinks (height r) o
      → Shrinks
          (suc (max (height l) (height r)))
          (settled (elim o [ none ↦ none | some (r', s') ↦ some (node a d c x l r', s') ]))
  shrunk_right none p = absurd p
  shrunk_right (some (r', s')) (hr', same) =
      settled-Shrinks _ _ s'
        (settle-after a d c x l r' h.3 hr' _ (omega arith) (omega arith) (lower same))
    where
      lower :
          (height r' ≡ height r) ⊎ (height r' + 1 ≡ height r)
          → (suc (max (height l) (height r')) ≡ suc (max (height l) (height r)))
            ⊎ ((suc (max (height l) (height r')) + 1 ≡ suc (max (height l) (height r)))
                × (height l ≤ height r' + 1)
                × (height r' ≤ height l + 1))
      lower (inl e) = inl (omega arith)
      lower (inr e) = elim (dec_lt (height l) (height r)) [
        | yes high ↦ inr (omega arith, omega arith, omega arith)
        | no low ↦ inl (omega arith)
      ]

settle-IsAvl : (t : Tree) → IsAvl t → Settles (height t) (settle t)
settle-IsAvl leaf h = unfold settle in (tt, refl)
settle-IsAvl (node a d c x l r) h = settle-Settles a d c x l r h.3 h.4 h.1 h.2

-- The child that takes the place of a node.
unlinked :
    (k : ℕ) (t : Tree) (s : State) → IsAvl t → height t + 1 ≡ k → Shrinks k (settled (some (t, s)))
unlinked k t s h e = settled-Shrinks _ t s (loses _ _ _ e (settle-IsAvl t h))

vacate-Shrinks :
    (a : ℕ) (d : ℤ) (x : Item) (l r : Tree) (s : State) (c : ℕ) (y : Item)
    (o : Option (Tree × State))
    → IsAvl (node a d c x l r)
    → Shrinks (height r) o
    → Shrinks (suc (max (height l) (height r))) (settled (vacate a d x l r s (c, y) o))
unfolding vacate unlink
vacate-Shrinks a d x leaf leaf s c y o h p =
    settled-Shrinks _ leaf _ (unfold settle in (tt, inr refl))
vacate-Shrinks a d x leaf (node a2 d2 c2 x2 l2 r2) s c y o h p =
    unlinked _ (node a d2 c2 x2 l2 r2) _ h.4 (omega arith)
vacate-Shrinks a d x (node a1 d1 c1 x1 l1 r1) leaf s c y o h p =
    unlinked _ (node a d1 c1 x1 l1 r1) _ h.3 (omega arith)
vacate-Shrinks a d x (node a1 d1 c1 x1 l1 r1) (node a2 d2 c2 x2 l2 r2) s c y none h p = absurd p
vacate-Shrinks a d x (node a1 d1 c1 x1 l1 r1) (node a2 d2 c2 x2 l2 r2) s c y (some (r', s')) h p =
    shrunk_right a d c y (node a1 d1 c1 x1 l1 r1) (node a2 d2 c2 x2 l2 r2) h (some (r', s')) p

-- On a balanced tree, a removal reads nothing through NULL, and returns a balanced tree that is as
-- high, or one lower.
pub remove_node-Shrinks :
    (t : Tree) (w : List ℕ) (s : State) → IsAvl t → Shrinks (height t) (remove_node t w s)
unfolding remove_node
remove_node-Shrinks leaf w s h = (tt, inl refl)
remove_node-Shrinks (node a d c x l r) w s h = elim (strcmp_cases w x.text) [
  | inl below ↦
      rw (below, remove_node) (shrunk_left a d c x l r h _ (remove_node-Shrinks l w s h.3))
  | inr (inl same) ↦ elim (Bool-cases (ltb 1 c)) [
    | inl many ↦ rw (same, many, remove_node) (h, inl refl)
    | inr once ↦
        rw (same, once, remove_node)
          (vacate-Shrinks a d x l r s _ _ _ h (remove_node-Shrinks r (leftmost c x r).1.text s h.4))
  ]
  | inr (inr above) ↦
      rw (above, remove_node) (shrunk_right a d c x l r h _ (remove_node-Shrinks r w s h.4))
]
