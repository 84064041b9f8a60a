-- ===== src/Jit/Reflect/Run.antt =====
-- The generated program compiles and computes the value of the expression.
use mathlib.Core.Option.{none-ne-some}
use jitcompilation.Prelude.{
  ap, Option, Option-cases, subst, ℕ, ◌≤◌, ◌<◌, none, some, List, [], ◌∷◌, ◌++◌, ◌≡◌, refl, ◌∙◌,
  ◌≢◌, ◌⊎◌, inl, inr, arith,
}
use jitcompilation.Jit.Syntax.{Op, Dag, Ast, id_of, erase}
use jitcompilation.Jit.Doubles.{Doubles}
use jitcompilation.Jit.Reflect.Meaning.{both, value_of, answer_of}
use jitcompilation.Jit.Parser.Numbering.{Numbered, Numbered-lt}
use jitcompilation.Jit.Reflect.{
  Line, value, reflect, generate_with_sigmoid, sigmoid, apply, Scope, extend, declare, run_line,
  run_lines, evaluate,
}

Numbered-id_of :
    {V : Type 0} (d : Dag V) {lo hi : ℕ} → Numbered lo d hi → (lo < id_of d) × (id_of d ≤ hi)
Numbered-id_of (Dag.val i v) n = omega arith
Numbered-id_of (Dag.neg i d) n = omega (arith, Numbered-lt d n.1)
Numbered-id_of (Dag.bin o i l r) n = omega (arith, Numbered-lt l n.2, Numbered-lt r n.3)

module _ (D : Doubles) where
  -- The operators of the generated text are those of arithmetic.
  same_operator :
      (o : Op) (l r : Ast D.Val)
      → both (apply D o) (value_of D l) (value_of D r) ≡ value_of D (Ast.bin o l r)
  unfolding apply
  same_operator Op.mul l r = refl
  same_operator Op.div l r = refl
  same_operator Op.add l r = refl
  same_operator Op.sub l r = refl

  run_lines-append :
      (xs ys : List (Line D.Val)) (s t : Scope D)
      → run_lines D xs s ≡ some t
      → run_lines D (xs ++ ys) s ≡ run_lines D ys t
  unfolding run_lines
  run_lines-append [] ys s t h = ap (elim [ none ↦ none | some x ↦ run_lines D ys x ]) h
  run_lines-append (x ∷ xs) ys s t h = elim (Option-cases (run_line D x s)) [
    | inl stops ↦ absurd (none-ne-some t (rw (stops, run_lines) at h))
    | inr (s', steps) ↦
        rw (steps, run_lines) (run_lines-append xs ys s' t (rw (steps, run_lines) at h))
  ]

  run_last :
      (xs : List (Line D.Val)) (x : Line D.Val) (r s t : Scope D)
      → run_lines D xs r ≡ some s
      → run_line D x s ≡ some t
      → run_lines D (xs ++ x ∷ []) r ≡ some t
  unfolding run_lines
  run_last xs x r s t h e = run_lines-append xs (x ∷ []) r s h ∙ rw (e, run_lines)

  declare_new :
      (i : ℕ) (v : D.Val) (s : Scope D) → s i ≡ none → declare D i v s ≡ some (extend D i v s)
  unfolding declare
  declare_new i v s h = rw (h, declare)

  extend_self : (i : ℕ) (v : D.Val) (s : Scope D) → extend D i v s i ≡ some v
  extend_self i v s = ground arith

  extend_ne : (i j : ℕ) (v : D.Val) (s : Scope D) → i ≢ j → extend D i v s j ≡ s j
  extend_ne i j v s h = ground arith

  run_lines-stops :
      (xs ys : List (Line D.Val)) (s : Scope D)
      → run_lines D xs s ≡ none
      → run_lines D (xs ++ ys) s ≡ none
  unfolding run_lines
  run_lines-stops [] ys s h = absurd (cc h)
  run_lines-stops (x ∷ xs) ys s h = elim (Option-cases (run_line D x s)) [
    | inl stops ↦ rw (stops, run_lines) refl
    | inr (s', steps) ↦
        rw (steps, run_lines) (run_lines-stops xs ys s' (rw (steps, run_lines) at h))
  ]

  -- The lines of a node ran from `s` to `t`: they declare its ids, and nothing else.
  record Runs (d : Dag D.Val) (lo hi : ℕ) (s t : Scope D) (v : D.Val) : Type 0 where
    runs : run_lines D (reflect d) s ≡ some t
    result : t (id_of d) ≡ some v
    kept : (j : ℕ) → (j ≤ lo) ⊎ (hi < j) → t j ≡ s j

  -- What the lines of a node come to, by its value.
  abbrev Ends : Dag D.Val → ℕ → ℕ → Scope D → Option D.Val → Type 0
  Ends d lo hi s none = run_lines D (reflect d) s ≡ none
  Ends d lo hi s (some v) = (t : Scope D) × Runs d lo hi s t v

  Fresh : ℕ → ℕ → Scope D → Type 0
  Fresh lo hi s = (j : ℕ) → lo < j → j ≤ hi → s j ≡ none

  value-Ends :
      (i : ℕ) (v : D.Val) (lo hi : ℕ) (s : Scope D) (o : Option D.Val)
      → D.printed v ≡ o
      → Numbered lo (Dag.val i v) hi
      → Fresh lo hi s
      → Ends (Dag.val i v) lo hi s o
  unfolding reflect run_line run_lines Fresh
  value-Ends i v lo hi s none e n fresh = rw (e, run_lines) refl
  value-Ends i v lo hi s (some a) e n fresh = (
    extend D i a s,
    record {
      runs =
          run_last [] (value i v) s s _ refl
            (rw (e, run_line) (declare_new i a s (fresh i (omega arith) (omega arith))));
      result = extend_self i a s;
      kept = λ j out. extend_ne i j a s (omega arith);
    },
  )

  neg-Ends :
      (i : ℕ) (d : Dag D.Val) (lo hi : ℕ) (s : Scope D) (o : Option D.Val)
      → Numbered lo (Dag.neg i d) hi
      → Fresh lo hi s
      → Ends d i hi s o
      → Ends (Dag.neg i d) lo hi s (elim o [ none ↦ none | some a ↦ some (D.negate a) ])
  unfolding reflect run_line Fresh
  neg-Ends i d lo hi s none n fresh r = run_lines-stops (reflect d) _ s r
  neg-Ends i d lo hi s (some a) n fresh (t, r) =
      let bounds = Numbered-lt d n.1 in
      let new : t i ≡ none = r.kept i (inl (omega arith)) ∙ fresh i (omega arith) (omega arith) in
      (
        extend D i (D.negate a) t,
        record {
          runs =
              run_last (reflect d) _ s t _ r.runs (rw (r.result, run_line) (declare_new i _ t new));
          result = extend_self i _ t;
          kept = λ j out. extend_ne i j _ t (omega arith) ∙ r.kept j (omega arith);
        },
      )

  -- The lines of the left operand, and behind them those of the right one.
  bin-Ends :
      (o : Op) (i : ℕ) (l r : Dag D.Val) (lo hi : ℕ) (s : Scope D) (a b : Option D.Val)
      → (n : Numbered lo (Dag.bin o i l r) hi) → Fresh lo hi s
      → Ends l lo n.0 s a
      → ((t : Scope D) (v : D.Val) → Runs l lo n.0 s t v → Ends r i hi t b)
      → Ends (Dag.bin o i l r) lo hi s (both (apply D o) a b)
  unfolding reflect run_line Fresh
  bin-Ends o i l r lo hi s none none n fresh left right = run_lines-stops (reflect l) _ s left
  bin-Ends o i l r lo hi s none (some b) n fresh left right = run_lines-stops (reflect l) _ s left
  bin-Ends o i l r lo hi s (some a) none n fresh (t, left) right =
      run_lines-append (reflect l) _ s t left.runs
      ∙ run_lines-stops (reflect r) _ t (right t a left)
  bin-Ends o i l r lo hi s (some a) (some b) n fresh (t, left) right_of =
      let (u, right) = right_of t a left in
      let in_left = Numbered-id_of l n.2 in
      let in_right = Numbered-id_of r n.3 in
      let new : u i ≡ none =
        right.kept i (inl (omega arith))
        ∙ (left.kept i (inr (omega arith)) ∙ fresh i (omega arith) (omega arith)) in
      let still : u (id_of l) ≡ some a = right.kept (id_of l) (inl (omega arith)) ∙ left.result in
      (
        extend D i (apply D o a b) u,
        record {
          runs =
              run_lines-append (reflect l) _ s t left.runs
              ∙ run_last (reflect r) _ t u _ right.runs
                  (rw (still, run_line) (rw (right.result, run_line) (declare_new i _ u new)));
          result = extend_self i _ u;
          kept = λ j out.
              extend_ne i j _ u (omega arith)
              ∙ (right.kept j (omega arith) ∙ left.kept j (omega arith));
        },
      )

  reflect-Ends :
      (d : Dag D.Val) (lo hi : ℕ) (s : Scope D)
      → Numbered lo d hi
      → Fresh lo hi s
      → Ends d lo hi s (value_of D (erase d))
  unfolding Fresh
  reflect-Ends (Dag.val i v) lo hi s n fresh = value-Ends i v lo hi s (D.printed v) refl n fresh
  reflect-Ends (Dag.neg i d) lo hi s n fresh =
      neg-Ends i d lo hi s (value_of D (erase d)) n fresh
        (reflect-Ends d i hi s n.1 (λ j low high. fresh j (omega arith) high))
  reflect-Ends (Dag.bin o i l r) lo hi s n fresh =
      let left =
        reflect-Ends l lo n.0 s n.2
          (λ j low high. fresh j low (omega (arith, Numbered-lt r n.3))) in
      let right : (t : Scope D) (v : D.Val)
          → Runs l lo n.0 s t v
          → Ends r i hi t (value_of D (erase r)) =
        λ t v ran. reflect-Ends r i hi t n.3 (λ j low high.
          ran.kept j (inr (omega arith)) ∙ fresh j (omega (arith, Numbered-lt l n.2)) high) in
      let whole =
        bin-Ends o i l r lo hi s (value_of D (erase l)) (value_of D (erase r)) n fresh left right in
      subst (Ends (Dag.bin o i l r) lo hi s) (same_operator o (erase l) (erase r)) whole

  answer_step :
      (d : Dag D.Val) (hi : ℕ) (o : Option D.Val)
      → Ends d 0 hi (λ _. none) o
      → evaluate D (generate_with_sigmoid d)
        ≡ elim o [ none ↦ none | some x ↦ some (D.divide D.one (D.add D.one (D.exp (D.negate x)))) ]
  unfolding evaluate generate_with_sigmoid sigmoid
  answer_step d hi none r = rw (r, evaluate) refl
  answer_step d hi (some v) (t, r) = rw (r.runs, evaluate) (rw (r.result, evaluate) refl)

  -- The program generated from a node whose ids are numbered from left to right compiles just where no
  -- number of the expression is an infinity or a NaN, and the call of `evaluate` gives the logistic
  -- function of the value of the expression: each number having gone through `%f`, the operators as
  -- in arithmetic, and a quotient by zero being zero.
  pub evaluate-generate :
      (d : Dag D.Val) (hi : ℕ)
      → Numbered 0 d hi
      → evaluate D (generate_with_sigmoid d) ≡ answer_of D (erase d)
  unfolding Fresh
  evaluate-generate d hi n =
      answer_step d hi (value_of D (erase d))
        (reflect-Ends d 0 hi (λ _. none) n (λ j low high. refl))
