-- ===== src/Avl/Vacate.antt =====
-- The node that remove_node of p3/avl.c finds, and the list that the tree reads as when it is gone.
use jitcompilation.Prelude.{
  ℕ, suc, zero, ◌+◌, ◌≤◌, ◌<◌, ◌≡◌, ◌⊎◌, inl, inr, refl, ap, sym, ◌∙◌, subst, Option, none, some,
  List, [], ◌∷◌, ◌++◌, length, length-append, append-nil, arith, Bool-cases,
}
use jitcompilation.Prelude.Int.{ℤ, pos, negsuc, ltb_ℤ}
use jitcompilation.Avl.Strcmp.{strcmp_refl}
use jitcompilation.Avl.Tree.{Item, Tree, leaf, node, State, balance, depth, traverse}
use jitcompilation.Avl.Words.{Words, count, total, total-append}
use jitcompilation.Avl.Erase.{remove_word, Once}
use jitcompilation.Avl.Order.{
  Yields, rotate_right-Yields, rotate_left-Yields, rotate_left_right-Yields,
  rotate_right_left-Yields, Counted, Post,
}
use jitcompilation.Avl.Remove.{
  leftmost, balance_of, lean_left, lean_right, settle, settled, unlink, release, decrement, vacate,
}

lean_left-Yields : (b : Option ℤ) (t : Tree) → Yields (traverse t) (lean_left b t)
unfolding lean_left
lean_left-Yields none t = tt
lean_left-Yields (some b) t = elim (Bool-cases (ltb_ℤ b (pos 0))) [
  | inl low ↦ rw low (rotate_left_right-Yields t)
  | inr high ↦ rw high (rotate_right-Yields t)
]

lean_right-Yields : (b : Option ℤ) (t : Tree) → Yields (traverse t) (lean_right b t)
unfolding lean_right
lean_right-Yields none t = tt
lean_right-Yields (some b) t = elim (Bool-cases (ltb_ℤ (pos 0) b)) [
  | inl high ↦ rw high (rotate_right_left-Yields t)
  | inr low ↦ rw low (rotate_left-Yields t)
]

settle-Yields : (t : Tree) → Yields (traverse t) (settle t)
unfolding settle traverse
settle-Yields leaf = refl
settle-Yields (node a d c x l r) = elim (Bool-cases (ltb_ℤ (pos 1) (balance l r))) [
  | inl left ↦ rw left (lean_left-Yields (balance_of l) (node a (depth l r) c x l r))
  | inr rest ↦ elim (Bool-cases (ltb_ℤ (balance l r) (negsuc 0))) [
    | inl right ↦ rw (rest, right) (lean_right-Yields (balance_of r) (node a (depth l r) c x l r))
    | inr even ↦ rw (rest, even) refl
  ]
]

pub settled-Post :
    (ws ws' : Words) (s : State) (o : Option (Tree × State))
    → Post ws ws' s o
    → Post ws ws' s (settled o)
unfolding settled
settled-Post ws ws' s none p = tt
settled-Post ws ws' s (some (t, s')) (reads, counted) =
    go (settle t) (subst (λ zs. Yields zs (settle t)) reads (settle-Yields t))
  where
    go :
        (o : Option Tree)
        → Yields ws' o
        → Post ws ws' s (elim o [ none ↦ none | some t' ↦ some (t', s') ])
    go none y = tt
    go (some t') y = (y, counted)

-- A word that occurs more than once, or a list in which each word occurs once.
abbrev pub IsPlain : List ℕ → Words → Type 0
IsPlain w ws = Once ws ⊎ (1 < count w ws)

-- The counters are at least what the list has.
abbrev pub Covers : State → Words → Type 0
Covers s ws = (total ws ≤ s.items) × (length ws ≤ s.unique)

-- The first word of a tree is that of its leftmost node.
leftmost_first :
    (c : ℕ) (x : Item) (l r : Tree) (a : ℕ) (d : ℤ)
    → (rest : Words) × (traverse (node a d c x l r)
        ≡ ((leftmost c x l).1.text, (leftmost c x l).0) ∷ rest)
unfolding leftmost traverse
leftmost_first c x leaf r a d = (traverse r, refl)
leftmost_first c x (node a' d' c' x' l' r') r a d =
    let (rest, e) = leftmost_first c' x' l' r' a' d' in
    (rest ++ (x.text, c) ∷ traverse r, ap (λ zs. zs ++ (x.text, c) ∷ traverse r) e)

pub decrement_lem : (n : ℕ) → 1 ≤ n → decrement n + 1 ≡ n
unfolding decrement
decrement_lem zero h = absurd (omega arith)
decrement_lem (suc n) h = omega arith

release-Counted :
    (y : Item) (b : ℕ) (k : List ℕ) (xs ys : Words) (s : State)
    → Covers s (xs ++ (k, 1) ∷ ys)
    → Counted (xs ++ (k, 1) ∷ ys) (xs ++ ys) s (release y b s)
unfolding release total
release-Counted y b k xs ys s (items, unique) =
    let more = total-append xs ((k, 1) ∷ ys) in
    let longer = length-append xs ((k, 1) ∷ ys) in
    record {
      items = omega (arith, decrement_lem s.items, total-append xs ys);
      unique = omega (arith, decrement_lem s.unique, length-append xs ys);
    }

-- The counts of a list around a word that is replaced by the first word after it.
moved-Counted :
    (k j : List ℕ) (xs rest : Words) (s s' : State)
    → Counted ((j, 1) ∷ rest) rest s s'
    → Counted (xs ++ (k, 1) ∷ (j, 1) ∷ rest) (xs ++ (j, 1) ∷ rest) s s'
unfolding total
moved-Counted k j xs rest s s' h = record {
  items =
      omega
        (arith, h.items, total-append xs ((k, 1) ∷ (j, 1) ∷ rest), total-append xs ((j, 1) ∷ rest));
  unique = omega (
    arith,
    h.unique,
    length-append xs ((k, 1) ∷ (j, 1) ∷ rest),
    length-append xs ((j, 1) ∷ rest),
  );
}

remove_word-first : (j : List ℕ) (rest : Words) → remove_word j ((j, 1) ∷ rest) ≡ rest
unfolding remove_word
remove_word-first j rest = rw (strcmp_refl j, remove_word) refl

-- The list after the first word `j` of `ys` was put in the place of `k` and removed from `ys`.
module _ (k j : List ℕ) (xs rest zs : Words) (s s' : State) where
  abbrev Moved : ℕ → Words → Type 0
  Moved c ys =
      (zs ≡ remove_word j ys) × Counted ys (remove_word j ys) s s'
      → (xs ++ (j, c) ∷ zs ≡ xs ++ ys) × Counted (xs ++ (k, 1) ∷ ys) (xs ++ ys) s s'

  Moved-first : Moved 1 ((j, 1) ∷ rest)
  Moved-first (reads, counted) =
      let first = remove_word-first j rest in
      (
        ap (λ us. xs ++ (j, 1) ∷ us) (reads ∙ first),
        moved-Counted k j xs rest s s'
            (subst (λ us. Counted ((j, 1) ∷ rest) us s s') first counted),
      )

  Moved-any : (c : ℕ) (ys : Words) → ys ≡ (j, c) ∷ rest → Once ys → Moved c ys
  Moved-any c ys e once =
      subst (λ us. Once us → Moved c us) (sym e)
        (λ (one, _). subst (λ n. Moved n ((j, n) ∷ rest)) (sym one) Moved-first) once

pub vacate-Post :
    (a : ℕ) (d : ℤ) (c : ℕ) (x : Item) (l r : Tree) (s : State) (o : Option (Tree × State))
    → Covers s (traverse l ++ (x.text, 1) ∷ traverse r)
    → Once (traverse r)
    → Post (traverse r) (remove_word (leftmost c x r).1.text (traverse r)) s o
    → Post
        (traverse l ++ (x.text, 1) ∷ traverse r)
        (traverse l ++ traverse r)
        s
        (vacate a d x l r s (leftmost c x r) o)
unfolding vacate unlink leftmost traverse
vacate-Post a d c x leaf leaf s o covers once p = (refl, release-Counted x a x.text [] [] s covers)
vacate-Post a d c x leaf (node a2 d2 c2 x2 l2 r2) s o covers once p =
    (refl, release-Counted x2 a2 x.text [] _ s covers)
vacate-Post a d c x (node a1 d1 c1 x1 l1 r1) leaf s o covers once p =
    (sym (append-nil _), release-Counted x1 a1 x.text _ [] s covers)
vacate-Post a d c x (node a1 d1 c1 x1 l1 r1) (node a2 d2 c2 x2 l2 r2) s none covers once p = tt
vacate-Post a d c x (node a1 d1 c1 x1 l1 r1) (node a2 d2 c2 x2 l2 r2) s (some (r', s')) covers once
      p =
    let (rest, e) = leftmost_first c2 x2 l2 r2 a2 d2 in
    Moved-any x.text (leftmost c2 x2 l2).1.text (traverse (node a1 d1 c1 x1 l1 r1)) rest
      (traverse r') s s' _ _ e once p
