-- ===== src/Jit/Reflect/Meaning.antt =====
-- The answer that an expression has, on its own: what p1/main.c is to print.
use jitcompilation.Prelude.{Option, none, some, if◌then◌else◌}
use jitcompilation.Jit.Syntax.{Op, Ast}
use jitcompilation.Jit.Doubles.{Doubles}

abbrev pub both : {A : Type 0} → (A → A → A) → Option A → Option A → Option A
both f (some a) (some b) = some (f a b)
both f (some a) none = none
both f none b = none

module _ (D : Doubles) where
  -- A quotient by zero is zero.
  abbrev pub quotient : D.Val → D.Val → D.Val
  quotient a b = if D.is_zero b then D.zero else D.divide a b

  -- The value of an expression whose numbers have gone through `%f`; there is none with an infinity
  -- or with a NaN among its numbers.
  abbrev pub value_of : Ast D.Val → Option D.Val
  value_of (Ast.num v) = D.printed v
  value_of (Ast.neg e) = elim (value_of e) [ none ↦ none | some a ↦ some (D.negate a) ]
  value_of (Ast.bin Op.mul l r) = both D.multiply (value_of l) (value_of r)
  value_of (Ast.bin Op.div l r) = both quotient (value_of l) (value_of r)
  value_of (Ast.bin Op.add l r) = both D.add (value_of l) (value_of r)
  value_of (Ast.bin Op.sub l r) = both D.subtract (value_of l) (value_of r)

  -- The logistic function of the value, 1 / (1 + e^-x).
  abbrev pub answer_of : Ast D.Val → Option D.Val
  answer_of e = elim (value_of e) [
    | none ↦ none
    | some x ↦ some (D.divide D.one (D.add D.one (D.exp (D.negate x))))
  ]
