-- ===== src/Jit/Parser/Ensures.antt =====
-- A postcondition on the outcome of a parser's call, with a rule for each way to build a call.
use mathlib.Core.Path.{subst₃}
use jitcompilation.Prelude.{◌≢◌, ◌≡◌, ◌-◌, String, List, inl, inr, Option-cases, get_elem?}
use jitcompilation.Jit.Syntax.{Op, tag}
use jitcompilation.Jit.Outcome.{out_of_fuel, Parser, Outcome, ok, null, fault, Parse, bind}
use jitcompilation.Jit.Parser.{or_trace, operand, bad_operand}

-- The run kept within its fuel, and `P` holds of its result if it has one.
pub data Ensures {T A : Type 0} (P : A → List T → Parser → Type 0) : Outcome T A → Type 0 where
  holds : {a : A} {ts : List T} {p : Parser} → P a ts p → Ensures P (ok a ts p)
  returns_null : {p : Parser} → Ensures P (null p)
  faults : Ensures P fault

module _ {T A : Type 0} {P : A → List T → Parser → Type 0} where
  pub Ensures-ok :
      {r : Outcome T A} {a : A} {ts : List T} {p : Parser} → Ensures P r → r ≡ ok a ts p → P a ts p
  Ensures-ok (holds {a} {ts} {p} h) e = subst₃ (λ a ts p. P a ts p) (cc) (cc) (cc) h
  Ensures-ok returns_null e = cc
  Ensures-ok faults e = cc

  pub Ensures-out_of_fuel : {r : Outcome T A} → Ensures P r → r ≢ out_of_fuel
  Ensures-out_of_fuel (holds h) = cc
  Ensures-out_of_fuel returns_null = cc
  Ensures-out_of_fuel faults = cc

  pub Ensures-bind :
      {B : Type 0} {Q : B → List T → Parser → Type 0} {r : Outcome T A} {k : A → Parse T B}
      → Ensures P r
      → ((a : A) (ts : List T) (p : Parser) → P a ts p → Ensures Q (k a ts p))
      → Ensures Q (bind r k)
  Ensures-bind (holds {a} {ts} {p} h) k = k a ts p h
  Ensures-bind returns_null k = returns_null
  Ensures-bind faults k = faults

  pub Ensures-map :
      {Q : A → List T → Parser → Type 0} {r : Outcome T A}
      → Ensures P r
      → ((a : A) (ts : List T) (p : Parser) → P a ts p → Q a ts p)
      → Ensures Q r
  Ensures-map (holds {a} {ts} {p} h) k = holds (k a ts p h)
  Ensures-map returns_null k = returns_null
  Ensures-map faults k = faults

  pub Ensures-or_trace :
      (m : List String) {r : Outcome T A} → Ensures P r → Ensures P (or_trace m r)
  unfolding or_trace
  Ensures-or_trace m (holds h) = holds h
  Ensures-or_trace m returns_null = returns_null
  Ensures-or_trace m faults = faults

  pub Ensures-bad_operand :
      (tbl : List String) (o : Op) (p : Parser) → Ensures P (bad_operand tbl o p)
  unfolding bad_operand
  Ensures-bad_operand tbl o p = elim (Option-cases (get_elem? tbl (tag o - tag Op.mul))) [
    | inl out ↦ rw (out, bad_operand) faults
    | inr (s, found) ↦ rw (found, bad_operand) returns_null
  ]

  pub Ensures-operand :
      (tbl : List String) (o : Op) {r : Outcome T A} → Ensures P r → Ensures P (operand tbl o r)
  unfolding operand
  Ensures-operand tbl o (holds h) = holds h
  Ensures-operand tbl o (returns_null {p}) = Ensures-bad_operand tbl o p
  Ensures-operand tbl o faults = faults
