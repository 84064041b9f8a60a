-- ===== src/Avl/Order.antt =====
-- The tree of p3/avl.c read as an ascending list: rotations leave it alone, an insertion is an
-- insertion into the list, and the search of avl_exists finds what is in it.
use jitcompilation.Prelude.{
  ℕ, ◌+◌, ◌≡◌, refl, sym, ◌∙◌, Bool, true, false, Option, none, some, List, [], ◌∷◌, ◌++◌, length,
  length-append, append_assoc, arith, inl, inr, subst, Bool-cases,
}
use jitcompilation.Prelude.Int.{ℤ}
use jitcompilation.Avl.Strcmp.{strcmp_cases}
use jitcompilation.Avl.Tree.{
  Item, Tree, leaf, node, State, rotate_right, rotate_left, rotate_left_right, rotate_right_left,
  set_depth, is_unbalanced, turn_right, turn_left, fix_left, fix_right, finish, make_node, update,
  exists, traverse,
}
use jitcompilation.Avl.Words.{
  Words, splice, count, total, total-append, IsAscending, IsAscending-append, splice-left,
  splice-right, splice-here, count-left, count-right, count-here,
}

traverse-set_depth : (t : Tree) → traverse (set_depth t) ≡ traverse t
unfolding set_depth traverse
traverse-set_depth leaf = refl
traverse-set_depth (node a d c x l r) = refl

-- A tree that a step returns reads as `ws`.
abbrev pub Yields : Words → Option Tree → Type 0
Yields ws none = Unit
Yields ws (some t) = traverse t ≡ ws

pub Yields-bind :
    (ws : Words) (o : Option Tree) (k : Tree → Option Tree)
    → ((t : Tree) → o ≡ some t → Yields ws (k t))
    → Yields ws (elim o [ none ↦ none | some t ↦ k t ])
Yields-bind ws none k h = tt
Yields-bind ws (some t) k h = h t refl

Yields-some : {ws : Words} {o : Option Tree} {t : Tree} → o ≡ some t → Yields ws o → traverse t ≡ ws
Yields-some {ws} e y = subst (Yields ws) e y

pub rotate_right-Yields : (t : Tree) → Yields (traverse t) (rotate_right t)
unfolding rotate_right traverse
rotate_right-Yields leaf = tt
rotate_right-Yields (node a d c x leaf r) = tt
rotate_right-Yields (node a d c x (node a' d' c' x' ll lr) r) =
    sym (append_assoc (traverse ll) ((x'.text, c') ∷ traverse lr) ((x.text, c) ∷ traverse r))

pub rotate_left-Yields : (t : Tree) → Yields (traverse t) (rotate_left t)
unfolding rotate_left traverse
rotate_left-Yields leaf = tt
rotate_left-Yields (node a d c x l leaf) = tt
rotate_left-Yields (node a d c x l (node a' d' c' x' rl rr)) =
    append_assoc (traverse l) ((x.text, c) ∷ traverse rl) ((x'.text, c') ∷ traverse rr)

pub rotate_left_right-Yields : (t : Tree) → Yields (traverse t) (rotate_left_right t)
unfolding rotate_left_right traverse
rotate_left_right-Yields leaf = tt
rotate_left_right-Yields (node a d c x l r) =
    Yields-bind _ (rotate_left l) (λ l'. rotate_right (node a d c x l' r))
      λ l' turned.
        subst (λ ws. Yields (ws ++ (x.text, c) ∷ traverse r) (rotate_right (node a d c x l' r)))
          (Yields-some turned (rotate_left-Yields l)) (rotate_right-Yields (node a d c x l' r))

pub rotate_right_left-Yields : (t : Tree) → Yields (traverse t) (rotate_right_left t)
unfolding rotate_right_left traverse
rotate_right_left-Yields leaf = tt
rotate_right_left-Yields (node a d c x l r) =
    Yields-bind _ (rotate_right r) (λ r'. rotate_left (node a d c x l r'))
      λ r' turned.
        subst (λ ws. Yields (traverse l ++ (x.text, c) ∷ ws) (rotate_left (node a d c x l r')))
          (Yields-some turned (rotate_right-Yields r)) (rotate_left-Yields (node a d c x l r'))

turn_right-Yields : (b : Option Bool) (t : Tree) → Yields (traverse t) (turn_right b t)
unfolding turn_right
turn_right-Yields none t = tt
turn_right-Yields (some true) t = rotate_right-Yields t
turn_right-Yields (some false) t = rotate_left_right-Yields t

turn_left-Yields : (b : Option Bool) (t : Tree) → Yields (traverse t) (turn_left b t)
unfolding turn_left
turn_left-Yields none t = tt
turn_left-Yields (some true) t = rotate_left-Yields t
turn_left-Yields (some false) t = rotate_right_left-Yields t

fix_left-Yields :
    (w : List ℕ) (a : ℕ) (d : ℤ) (c : ℕ) (x : Item) (l r : Tree)
    → Yields (traverse (node a d c x l r)) (fix_left w a d c x l r)
unfolding fix_left
fix_left-Yields w a d c x l r = elim (Bool-cases (is_unbalanced l r)) [
  | inl heavy ↦ rw heavy (turn_right-Yields _ (node a d c x l r))
  | inr even ↦ rw even refl
]

fix_right-Yields :
    (w : List ℕ) (a : ℕ) (d : ℤ) (c : ℕ) (x : Item) (l r : Tree)
    → Yields (traverse (node a d c x l r)) (fix_right w a d c x l r)
unfolding fix_right
fix_right-Yields w a d c x l r = elim (Bool-cases (is_unbalanced l r)) [
  | inl heavy ↦ rw heavy (turn_left-Yields _ (node a d c x l r))
  | inr even ↦ rw even refl
]

-- What an insertion into a tree that reads as `ws` returns: a tree that reads as `ws'`, with the
-- counters moved by as much as the list.
pub record Counted (ws ws' : Words) (s s' : State) : Type 0 where
  pub items : s'.items + total ws ≡ s.items + total ws'
  pub unique : s'.unique + length ws ≡ s.unique + length ws'

abbrev pub Post : Words → Words → State → Option (Tree × State) → Type 0
Post ws ws' s none = Unit
Post ws ws' s (some (t, s')) = (traverse t ≡ ws') × Counted ws ws' s s'

pub Post-bind :
    (us us' ws ws' : Words) (s : State) (o : Option (Tree × State))
    (k : Tree → State → Option (Tree × State))
    → Post us us' s o
    → ((t : Tree) (s' : State) → (traverse t ≡ us') × Counted us us' s s' → Post ws ws' s (k t s'))
    → Post ws ws' s (elim o [ none ↦ none | some (t, s') ↦ k t s' ])
Post-bind us us' ws ws' s none k p h = tt
Post-bind us us' ws ws' s (some (t, s')) k p h = h t s' p

finish-Post :
    {ws ws' : Words} (s s' : State) (o : Option Tree)
    → Yields ws' o
    → Counted ws ws' s s'
    → Post ws ws' s (finish s' o)
unfolding finish
finish-Post s s' none y c = tt
finish-Post s s' (some t) y c = (traverse-set_depth t ∙ y, c)

module _ {s s' : State} (k : List ℕ) (c : ℕ) where
  pub Counted-left :
      (us us' ys : Words)
      → Counted us us' s s'
      → Counted (us ++ (k, c) ∷ ys) (us' ++ (k, c) ∷ ys) s s'
  Counted-left us us' ys h = record {
    items = omega (arith, h.items, total-append us ((k, c) ∷ ys), total-append us' ((k, c) ∷ ys));
    unique =
        omega (arith, h.unique, length-append us ((k, c) ∷ ys), length-append us' ((k, c) ∷ ys));
  }

  pub Counted-right :
      (xs us us' : Words)
      → Counted us us' s s'
      → Counted (xs ++ (k, c) ∷ us) (xs ++ (k, c) ∷ us') s s'
  unfolding total
  Counted-right xs us us' h = record {
    items = omega (arith, h.items, total-append xs ((k, c) ∷ us), total-append xs ((k, c) ∷ us'));
    unique =
        omega (arith, h.unique, length-append xs ((k, c) ∷ us), length-append xs ((k, c) ∷ us'));
  }

Counted-here :
    (s : State) (k : List ℕ) (c : ℕ) (xs ys : Words)
    → Counted (xs ++ (k, c) ∷ ys) (xs ++ (k, c + 1) ∷ ys) s (record s { items = s.items + 1 })
unfolding total
Counted-here s k c xs ys = record {
  items = omega (arith, total-append xs ((k, c) ∷ ys), total-append xs ((k, c + 1) ∷ ys));
  unique = omega (arith, length-append xs ((k, c) ∷ ys), length-append xs ((k, c + 1) ∷ ys));
}

module _ (alloc : ℕ → Option ℕ) where
  -- The words that an insertion puts in the place of a new word: the word, or nothing where an
  -- allocation fails.
  abbrev pub fresh : List ℕ → State → Words
  fresh w s = traverse (make_node alloc w s).0

  make_node-Counted : (w : List ℕ) (s : State) → Counted [] (fresh w s) s (make_node alloc w s).1
  unfolding make_node traverse total
  make_node-Counted w s = ground arith

  -- Whether or not the allocations succeed, a call that reads nothing through NULL returns a tree
  -- that reads as the list with the word counted once more.
  pub update-Post :
      (t : Tree) (w : List ℕ) (s : State)
      → IsAscending (traverse t)
      → Post (traverse t) (splice (fresh w s) w (traverse t)) s (update alloc t w s)
  unfolding update traverse splice
  update-Post leaf w s h = (refl, make_node-Counted w s)
  update-Post (node a d c x l r) w s h =
      let around = IsAscending-append (traverse l) x.text c (traverse r) h in
      elim (strcmp_cases w x.text) [
        | inl below ↦
            rw (below, update)
              (rw (splice-left (fresh w s) w x.text c (traverse l) (traverse r) below) (
                Post-bind _ _ _ _ s (update alloc l w s)
                  (λ l' s'. finish s' (fix_left w a d c x l' r)) (update-Post l w s around.left)
                  λ l' s' (reads, counted).
                    finish-Post s s' _
                      (subst
                        (λ zs. Yields (zs ++ (x.text, c) ∷ traverse r) (fix_left w a d c x l' r))
                        reads (fix_left-Yields w a d c x l' r))
                      (Counted-left x.text c _ _ (traverse r) counted)))
        | inr (inl same) ↦
            rw (same, update)
              (rw (splice-here (fresh w s) w x.text c (traverse l) (traverse r) same around.before)
                (
                  traverse-set_depth (node a d (c + 1) x l r),
                  Counted-here s x.text c (traverse l) (traverse r),
                ))
        | inr (inr above) ↦
            rw (above, update)
              (rw
                (splice-right (fresh w s) w x.text c (traverse l) (traverse r) above around.before)
                (Post-bind _ _ _ _ s (update alloc r w s)
                  (λ r' s'. finish s' (fix_right w a d c x l r')) (update-Post r w s around.right)
                  λ r' s' (reads, counted).
                    finish-Post s s' _
                      (subst
                        (λ zs. Yields (traverse l ++ (x.text, c) ∷ zs) (fix_right w a d c x l r'))
                        reads (fix_right-Yields w a d c x l r'))
                      (Counted-right x.text c (traverse l) _ _ counted)))
      ]

-- The search finds the count that the list has for a word.
pub exists-count :
    (t : Tree) (w : List ℕ) → IsAscending (traverse t) → exists t w ≡ count w (traverse t)
unfolding exists traverse
exists-count leaf w h = unfold count in refl
exists-count (node a d c x l r) w h =
    let around = IsAscending-append (traverse l) x.text c (traverse r) h in
    ground (
      arith,
      exists-count l w around.left,
      exists-count r w around.right,
      count-left w x.text c (traverse l) (traverse r),
      count-right w x.text c (traverse l) (traverse r),
      count-here w x.text c (traverse l) (traverse r),
    )
