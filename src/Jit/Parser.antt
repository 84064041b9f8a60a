-- ===== src/Jit/Parser.antt =====
-- The recursive descent of p1/parser.c, on fuel. The list of tokens left stands for the position
-- in the token array, so that `next`, `match` and `forward` are the patterns of the clauses.
pub mod Grammar
pub mod Numbering
pub mod Ensures
pub mod Reads
pub mod Sound
pub mod Complete
pub mod Correct
use jitcompilation.Prelude.{
  ℕ, zero, suc, ◌+◌, ◌-◌, ◌*◌, String, Bool, true, Option, none, some, List, [], ◌∷◌, if◌then◌else◌,
  get_elem?, length,
}
use jitcompilation.Jit.Syntax.{Token, Op, Dag, tag}
use jitcompilation.Jit.Outcome.{
  Parser, Outcome, ok, null, fault, out_of_fuel, Parse, bind, ◌>>=◌, ◌>>◌, pure,
}

-- TRACE_ONCE: only the first message is printed.
unfoldable pub trace_once : List String → Parser → Parser
trace_once m p = if p.stop then p else record p { stop = true; diagnostic = m }

-- `if (!(dag = call)) { TRACE_ONCE(m); return NULL; }`, on the outcome of the call.
unfoldable pub or_trace : {T A : Type 0} → List String → Outcome T A → Outcome T A
or_trace m (null p) = null (trace_once m p)
or_trace m r = r

-- The message on a missing operand, which both loops look up by `TBL[dag->op - PARSER_DAG_MUL]`.
unfoldable pub bad_operand : {T A : Type 0} → List String → Op → Parser → Outcome T A
bad_operand tbl o p = elim (get_elem? tbl (tag o - tag Op.mul)) [
  | none ↦ fault
  | some s ↦ null (trace_once ("invalid '" ∷ s ∷ "' operand" ∷ []) p)
]

unfoldable pub operand : {T A : Type 0} → List String → Op → Outcome T A → Outcome T A
operand tbl o (null p) = bad_operand tbl o p
operand tbl o r = r

abbrev pub multiplicative_names : List String
multiplicative_names = "*" ∷ "/" ∷ []

abbrev pub additive_names : List String
additive_names = "+" ∷ "-" ∷ []

module _ {V : Type 0} where
  -- The tests of the two loops: the operator in front, and the tokens behind it.
  unfoldable pub multiplicative_op : List (Token V) → Option (Op × List (Token V))
  multiplicative_op (Token.mul ∷ ts) = some (Op.mul, ts)
  multiplicative_op (Token.div ∷ ts) = some (Op.div, ts)
  multiplicative_op _ = none

  unfoldable pub additive_op : List (Token V) → Option (Op × List (Token V))
  additive_op (Token.add ∷ ts) = some (Op.add, ts)
  additive_op (Token.sub ∷ ts) = some (Op.sub, ts)
  additive_op _ = none

  unfoldable pub close_paren : Parse (Token V) (Unit {0})
  close_paren (Token.close ∷ ts) p = ok tt ts p
  close_paren ts p = null (trace_once ("expecting ')'" ∷ []) p)

  unfoldable pub end_of_input : Parse (Token V) (Unit {0})
  end_of_input [] p = ok tt [] p
  end_of_input (t ∷ ts) p = null (trace_once ("bogus trailing content" ∷ []) p)

-- `malloc n` says whether the allocation of a node succeeds when `n` nodes have been made.
module _ {V : Type 0} (malloc : ℕ → Bool) where
  -- MKD: the id of the new node.
  unfoldable pub mkd : Parse (Token V) ℕ
  mkd ts p = if malloc p.id then ok (p.id + 1) ts (record p { id = p.id + 1 }) else null p

  unfoldable mutual
    pub expr_primary : ℕ → Parse (Token V) (Dag V)
    expr_primary zero ts p = out_of_fuel
    expr_primary (suc f) (Token.val v ∷ ts) p = bind (mkd ts p) λ i. pure (Dag.val i v)
    expr_primary (suc f) (Token.open_ ∷ ts) p =
        bind (or_trace ("invalid sub-expression" ∷ []) (expr f ts p)) λ d. close_paren >> pure d
    expr_primary (suc f) ts p = null p

    pub expr_unary : ℕ → Parse (Token V) (Dag V)
    expr_unary zero ts p = out_of_fuel
    expr_unary (suc f) (Token.add ∷ ts) p =
        or_trace ("invalid unary '+' operand" ∷ []) (expr_unary f ts p)
    expr_unary (suc f) (Token.sub ∷ ts) p = bind (mkd ts p) λ i us q.
        bind (or_trace ("invalid unary '-' operand" ∷ []) (expr_unary f us q))
          λ d. pure (Dag.neg i d)
    expr_unary (suc f) ts p = expr_primary f ts p

    -- the `for (;;)` of expr_multiplicative_, which keeps `left` while `dag` changes
    pub multiplicative_loop : ℕ → Dag V → Dag V → Parse (Token V) (Dag V)
    multiplicative_loop zero left dag ts p = out_of_fuel
    multiplicative_loop (suc f) left dag ts p = elim (multiplicative_op ts) [
      | none ↦ ok dag ts p
      | some (o, us) ↦ bind (mkd us p) λ i us₁ p₁.
          bind (operand multiplicative_names o (expr_unary f us₁ p₁)) λ right us₂ p₂.
            bind (or_trace [] (expr_multiplicative_ f (Dag.bin o i left right) us₂ p₂))
              λ d. multiplicative_loop f left d
    ]

    pub expr_multiplicative_ : ℕ → Dag V → Parse (Token V) (Dag V)
    expr_multiplicative_ zero left ts p = out_of_fuel
    expr_multiplicative_ (suc f) left ts p = multiplicative_loop f left left ts p

    pub expr_multiplicative : ℕ → Parse (Token V) (Dag V)
    expr_multiplicative zero ts p = out_of_fuel
    expr_multiplicative (suc f) ts p = bind (expr_unary f ts p) (expr_multiplicative_ f)

    -- the `for (;;)` of expr_additive_
    pub additive_loop : ℕ → Dag V → Dag V → Parse (Token V) (Dag V)
    additive_loop zero left dag ts p = out_of_fuel
    additive_loop (suc f) left dag ts p = elim (additive_op ts) [
      | none ↦ ok dag ts p
      | some (o, us) ↦ bind (mkd us p) λ i us₁ p₁.
          bind (operand additive_names o (expr_multiplicative f us₁ p₁)) λ right us₂ p₂.
            bind (or_trace [] (expr_additive_ f (Dag.bin o i left right) us₂ p₂))
              λ d. additive_loop f left d
    ]

    pub expr_additive_ : ℕ → Dag V → Parse (Token V) (Dag V)
    expr_additive_ zero left ts p = out_of_fuel
    expr_additive_ (suc f) left ts p = additive_loop f left left ts p

    pub expr_additive : ℕ → Parse (Token V) (Dag V)
    expr_additive zero ts p = out_of_fuel
    expr_additive (suc f) ts p = bind (expr_multiplicative f ts p) (expr_additive_ f)

    pub expr : ℕ → Parse (Token V) (Dag V)
    expr zero ts p = out_of_fuel
    expr (suc f) ts p = expr_additive f ts p

  -- Fuel for a list of tokens.
  abbrev pub fuel : List (Token V) → ℕ
  fuel ts = 12 * length ts + 12

  unfoldable pub top : Parse (Token V) (Dag V)
  top ts p =
      bind (or_trace ("invalid expression" ∷ []) (expr (fuel ts) ts p)) λ d. end_of_input >> pure d
