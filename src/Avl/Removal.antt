-- ===== src/Avl/Removal.antt =====
-- remove_node of p3/avl.c and the list that the tree reads as.
use Prim.Native.Nat.Ordering.{lt, eq, gt}
use jitcompilation.Prelude.{
  ℕ, ◌-◌, ◌≡◌, inl, inr, refl, ap, sym, subst, true, false, Option, some, List, ◌∷◌, ◌++◌,
  length-append, arith, ltb, Bool-cases, ltb→lt,
}
use jitcompilation.Prelude.Int.{ℤ}
use jitcompilation.Avl.Strcmp.{strcmp, strcmp_cases}
use jitcompilation.Avl.Tree.{Item, Tree, leaf, node, State, traverse}
use jitcompilation.Avl.Words.{
  Words, total, total-append, IsAscending, IsAscending-append, count-left, count-right, count-here,
}
use jitcompilation.Avl.Erase.{
  remove_word, remove_word-left, remove_word-right, remove_word-here, Once, Once-append,
}
use jitcompilation.Avl.Order.{Counted, Post, Post-bind, Counted-left, Counted-right}
use jitcompilation.Avl.Remove.{leftmost, settled, decrement, vacate, remove_node}
use jitcompilation.Avl.Vacate.{vacate-Post, settled-Post, IsPlain, Covers, decrement_lem}

module _ (w : List ℕ) (s : State) (xs : Words) (k : List ℕ) (c : ℕ) (ys : Words) where
  Covers-left : Covers s (xs ++ (k, c) ∷ ys) → Covers s xs
  Covers-left (items, unique) =
      (omega (arith, total-append xs ((k, c) ∷ ys)), omega (arith, length-append xs ((k, c) ∷ ys)))

  Covers-right : Covers s (xs ++ (k, c) ∷ ys) → Covers s ys
  unfolding total
  Covers-right (items, unique) =
      (omega (arith, total-append xs ((k, c) ∷ ys)), omega (arith, length-append xs ((k, c) ∷ ys)))

  IsPlain-left :
      strcmp w k ≡ lt
      → IsAscending (xs ++ (k, c) ∷ ys)
      → IsPlain w (xs ++ (k, c) ∷ ys)
      → IsPlain w xs
  IsPlain-left below h (inl once) = inl (Once-append xs k c ys once).0
  IsPlain-left below h (inr many) =
      inr (omega (arith, many, count-left w k c xs ys below (IsAscending-append xs k c ys h).after))

  IsPlain-right :
      strcmp w k ≡ gt
      → IsAscending (xs ++ (k, c) ∷ ys)
      → IsPlain w (xs ++ (k, c) ∷ ys)
      → IsPlain w ys
  IsPlain-right above h (inl once) =
      let (left, one, right) = Once-append xs k c ys once in inl right
  IsPlain-right above h (inr many) =
      inr
        (omega (arith, many, count-right w k c xs ys above (IsAscending-append xs k c ys h).before))

  -- At its word, a plain list has it more than once, or every word once.
  IsPlain-here :
      strcmp w k ≡ eq
      → IsAscending (xs ++ (k, c) ∷ ys)
      → IsPlain w (xs ++ (k, c) ∷ ys)
      → ltb 1 c ≡ false
      → (c ≡ 1) × Once ys
  IsPlain-here same h (inl once) low =
      let (left, one, right) = Once-append xs k c ys once in (one, right)
  IsPlain-here same h (inr many) low =
      let here = count-here w k c xs ys same (IsAscending-append xs k c ys h).before in
      absurd (ground (arith, here, many, low))

  fewer-Counted :
      ltb 1 c ≡ true
      → Covers s (xs ++ (k, c) ∷ ys)
      → Counted
          (xs ++ (k, c) ∷ ys)
          (xs ++ (k, c - 1) ∷ ys)
          s
          (record s { items = decrement s.items })
  unfolding total
  fewer-Counted many (items, unique) =
      let more = total-append xs ((k, c) ∷ ys) in
      let less = total-append xs ((k, c - 1) ∷ ys) in
      let high = ltb→lt 1 c many in
      record {
        items = omega (arith, decrement_lem s.items);
        unique = omega (arith, length-append xs ((k, c) ∷ ys), length-append xs ((k, c - 1) ∷ ys));
      }

vacated :
    (a : ℕ) (d : ℤ) (c : ℕ) (x : Item) (l r : Tree) (s : State) (o : Option (Tree × State))
    → c ≡ 1
    → Covers s (traverse l ++ (x.text, c) ∷ traverse r)
    → Once (traverse r)
    → Post (traverse r) (remove_word (leftmost c x r).1.text (traverse r)) s o
    → Post
        (traverse l ++ (x.text, c) ∷ traverse r)
        (traverse l ++ traverse r)
        s
        (settled (vacate a d x l r s (leftmost c x r) o))
vacated a d c x l r s o one covers once p = settled-Post _ _ s _ (
    subst
      (λ n.
        Covers s (traverse l ++ (x.text, n) ∷ traverse r)
        → Post (traverse l ++ (x.text, n) ∷ traverse r) (traverse l ++ traverse r) s
            (vacate a d x l r s (leftmost c x r) o))
      (sym one) (λ whole. vacate-Post a d c x l r s o whole once p) covers)

-- A removal in a tree whose counters cover its list, of a word that occurs more than once or where
-- every word occurs once: the list loses one occurrence, and the counters what the list loses.
pub remove_node-Post :
    (t : Tree) (w : List ℕ) (s : State)
    → IsAscending (traverse t)
    → IsPlain w (traverse t)
    → Covers s (traverse t)
    → Post (traverse t) (remove_word w (traverse t)) s (remove_node t w s)
unfolding remove_node traverse
remove_node-Post leaf w s h plain covers =
    unfold remove_word in (refl, record { items = refl; unique = refl })
remove_node-Post (node a d c x l r) w s h plain covers =
    let around = IsAscending-append (traverse l) x.text c (traverse r) h in
    elim (strcmp_cases w x.text) [
      | inl below ↦
          rw (below, remove_node)
            (rw (remove_word-left w x.text c (traverse l) (traverse r) below) (
              settled-Post _ _ s _ (
                Post-bind _ _ _ _ s (remove_node l w s) (λ l' s'. some (node a d c x l' r, s'))
                  (remove_node-Post l w s around.left (IsPlain-left w s _ _ _ _ below h plain)
                    (Covers-left w s _ _ _ _ covers))
                  λ l' s' (reads, counted). (
                    ap (λ zs. zs ++ (x.text, c) ∷ traverse r) reads,
                    Counted-left x.text c _ _ (traverse r) counted,
                  ))))
      | inr (inl same) ↦
          rw (same, remove_node)
            (rw (remove_word-here w x.text c (traverse l) (traverse r) same around.before)
              (elim (Bool-cases (ltb 1 c)) [
                | inl many ↦ rw many (refl, fewer-Counted w s _ _ _ _ many covers)
                | inr low ↦
                    let (one, once) =
                      IsPlain-here w s (traverse l) x.text c (traverse r) same h plain low in
                    rw low (
                      vacated a d c x l r s _ one covers once (
                        remove_node-Post r (leftmost c x r).1.text s around.right (inl once)
                          (Covers-right w s _ _ _ _ covers)))
              ]))
      | inr (inr above) ↦
          rw (above, remove_node)
            (rw (remove_word-right w x.text c (traverse l) (traverse r) above around.before) (
              settled-Post _ _ s _ (
                Post-bind _ _ _ _ s (remove_node r w s) (λ r' s'. some (node a d c x l r', s'))
                  (remove_node-Post r w s around.right (IsPlain-right w s _ _ _ _ above h plain)
                    (Covers-right w s _ _ _ _ covers))
                  λ r' s' (reads, counted). (
                    ap (λ zs. traverse l ++ (x.text, c) ∷ zs) reads,
                    Counted-right x.text c (traverse l) _ _ counted,
                  ))))
    ]
