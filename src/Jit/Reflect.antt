-- ===== src/Jit/Reflect.antt =====
-- p1/main.c: the C program that is generated from an expression, and what it computes.
pub mod Meaning
pub mod Run
use jitcompilation.Prelude.{ℕ, Bool, Option, none, some, List, [], ◌∷◌, ◌++◌, if◌then◌else◌, ◌==◌}
use jitcompilation.Jit.Syntax.{Op, Dag, id_of}
use jitcompilation.Jit.Doubles.{Doubles}

-- A line that `reflect` prints, by its format: "double t%d = %f;", "double t%d = - t%d;", and for
-- each operator "double t%d = t%d ... t%d;", where a division is "t%d ? (t%d / t%d) : 0.0".
pub data Line (V : Type 0) : Type 0 where
  value : ℕ → V → Line V
  negation : ℕ → ℕ → Line V
  binary : Op → ℕ → ℕ → ℕ → Line V

unfoldable pub reflect : {V : Type 0} → Dag V → List (Line V)
reflect (Dag.val i v) = value i v ∷ []
reflect (Dag.neg i d) = reflect d ++ negation i (id_of d) ∷ []
reflect (Dag.bin o i l r) = reflect l ++ (reflect r ++ binary o i (id_of l) (id_of r) ∷ [])

-- The function `evaluate` of the generated file: its lines, and the variable that it passes to the
-- function that it is given.
pub record Program (V : Type 0) : Type 0 where
  pub body : List (Line V)
  pub argument : ℕ

unfoldable pub generate_with_sigmoid : {V : Type 0} → Dag V → Program V
generate_with_sigmoid d = record { body = reflect d; argument = id_of d }

module _ (D : Doubles) where
  open D use {Val, zero, one, negate, add, subtract, multiply, divide, is_zero, exp, printed}

  -- `sigmoid`
  unfoldable pub sigmoid : Val → Val
  sigmoid x = divide one (add one (exp (negate x)))

  -- The meaning of the operators in the generated text.
  unfoldable pub apply : Op → Val → Val → Val
  apply Op.mul a b = multiply a b
  apply Op.div a b = if is_zero b then zero else divide a b
  apply Op.add a b = add a b
  apply Op.sub a b = subtract a b

  -- The variables declared so far, by number.
  abbrev pub Scope : Type 0
  Scope = ℕ → Option Val

  abbrev pub extend : ℕ → Val → Scope → Scope
  extend i v s j = if i == j then some v else s j

  -- `double t<i> = v;`. A second declaration of a name in one block does not compile.
  unfoldable pub declare : ℕ → Val → Scope → Option Scope
  declare i v s = elim (s i) [ some _ ↦ none | none ↦ some (extend i v s) ]

  -- A line is run in order; a use of an undeclared name does not compile, and neither does `inf` or `nan`.
  unfoldable pub run_line : Line Val → Scope → Option Scope
  run_line (value i v) s = elim (printed v) [ none ↦ none | some a ↦ declare i a s ]
  run_line (negation i j) s = elim (s j) [ none ↦ none | some a ↦ declare i (negate a) s ]
  run_line (binary o i j k) s = elim (s j) [
    | none ↦ none
    | some a ↦ elim (s k) [ none ↦ none | some b ↦ declare i (apply o a b) s ]
  ]

  unfoldable pub run_lines : List (Line Val) → Scope → Option Scope
  run_lines [] s = some s
  run_lines (l ∷ ls) s = elim (run_line l s) [ none ↦ none | some s' ↦ run_lines ls s' ]

  -- The call `evaluate(&sigmoid)`; `none` is a program that does not compile.
  unfoldable pub evaluate : Program Val → Option Val
  evaluate prog = elim (run_lines prog.body (λ _. none)) [
    | none ↦ none
    | some s ↦ elim (s prog.argument) [ none ↦ none | some v ↦ some (sigmoid v) ]
  ]
