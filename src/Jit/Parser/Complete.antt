-- ===== src/Jit/Parser/Complete.antt =====
-- Every sentence of the grammar is parsed: an induction on its derivation, for a parser whose
-- allocations succeed.
use mathlib.Core.Path.{ap₂}
use jitcompilation.Prelude.{
  ℕ, zero, suc, ◌+◌, ◌*◌, ◌≤◌, String, Bool, true, none, some, List, [], ◌∷◌, ◌≡◌, refl, ap, length,
  arith,
}
use jitcompilation.Jit.Syntax.{Token, Op, Dag, Ast, erase}
use jitcompilation.Jit.Outcome.{Parser, Outcome, ok, Parse, bind}
use jitcompilation.Jit.Parser.{
  or_trace, operand, multiplicative_op, additive_op, mkd, close_paren, end_of_input, expr_primary,
  expr_unary, multiplicative_loop, expr_multiplicative, additive_loop, expr_additive, expr, top,
}
use jitcompilation.Jit.Parser.Grammar.{
  Nonterminal, primary, unary, multiplicative, additive, multiplicative_, additive_, Derives, value,
  parens, plus, minus, plain, factors, no_factor, factor, terms, no_term, term, Derives-length,
  length-multiplicative_op, length-additive_op, FactorOp_lem, TermOp_lem,
}
use jitcompilation.Jit.Parser.Reads.{multiplicative_loop_stop, additive_loop_stop}

-- The call returns a node of the expression `e` and leaves the tokens `us`.
pub data Yields {V : Type 0} (e : Ast V) (us : List (Token V))
    : Outcome (Token V) (Dag V) → Type 0 where
  yields : (d : Dag V) (q : Parser) → erase d ≡ e → Yields e us (ok d us q)

module _ {V : Type 0} {e : Ast V} {us : List (Token V)} where
  pub Yields-ok :
      {r : Outcome (Token V) (Dag V)}
      → Yields e us r
      → (d : Dag V) × (q : Parser) × (r ≡ ok d us q) × (erase d ≡ e)
  Yields-ok (yields d q h) = (d, q, refl, h)

  Yields-bind :
      {B : Ast V} {vs : List (Token V)} {r : Outcome (Token V) (Dag V)}
      (k : Dag V → Parse (Token V) (Dag V))
      → Yields e us r
      → ((d : Dag V) (q : Parser) → erase d ≡ e → Yields B vs (k d us q))
      → Yields B vs (bind r k)
  Yields-bind k (yields d q h) body = body d q h

  Yields-or_trace :
      (m : List String) {r : Outcome (Token V) (Dag V)} → Yields e us r → Yields e us (or_trace m r)
  unfolding or_trace
  Yields-or_trace m (yields d q h) = yields d q h

  Yields-operand :
      (tbl : List String) (o : Op) {r : Outcome (Token V) (Dag V)}
      → Yields e us r
      → Yields e us (operand tbl o r)
  unfolding operand
  Yields-operand tbl o (yields d q h) = yields d q h

module _ {V : Type 0} where
  -- What stands behind a nonterminal is no operator that it could have read on.
  abbrev pub Ends : Nonterminal V → List (Token V) → Type 0
  Ends primary us = Unit
  Ends unary us = Unit
  Ends multiplicative us = multiplicative_op us ≡ none
  Ends (multiplicative_ l) us = multiplicative_op us ≡ none
  Ends additive us = (multiplicative_op us ≡ none) × (additive_op us ≡ none)
  Ends (additive_ l) us = (multiplicative_op us ≡ none) × (additive_op us ≡ none)

  pub one_operator :
      (ts : List (Token V)) {o : Op} {us : List (Token V)}
      → additive_op ts ≡ some (o, us)
      → multiplicative_op ts ≡ none
  unfolding multiplicative_op additive_op
  one_operator ts h = ground arith

  Derives-additive_ :
      {l e : Ast V} {us vs : List (Token V)}
      → Derives (additive_ l) us e vs
      → multiplicative_op vs ≡ none
      → multiplicative_op us ≡ none
  Derives-additive_ no_term h = h
  Derives-additive_ (term {ts} more d t) h = one_operator ts (TermOp_lem more)

module _ {V : Type 0} (malloc : ℕ → Bool) (made : (n : ℕ) → malloc n ≡ true) where
  pub mkd_lem :
      (ts : List (Token V)) (p : Parser)
      → mkd malloc ts p ≡ ok (p.id + 1) ts (record p { id = p.id + 1 })
  unfolding mkd
  mkd_lem ts p = rw (made p.id, mkd)

  close_ends :
      (us : List (Token V))
      → (multiplicative_op (Token.close ∷ us) ≡ none) × (additive_op (Token.close ∷ us) ≡ none)
  unfolding multiplicative_op additive_op
  close_ends us = (refl, refl)

  abbrev rank : Nonterminal V → ℕ
  rank unary = 2
  rank multiplicative = 3
  rank additive = 4
  rank _ = 1

  -- The call for a nonterminal. A tail is called with the node to its left.
  abbrev Parses : Nonterminal V → ℕ → List (Token V) → Parser → Ast V → List (Token V) → Type 0
  Parses primary f ts p e us = Yields e us (expr_primary malloc f ts p)
  Parses unary f ts p e us = Yields e us (expr_unary malloc f ts p)
  Parses multiplicative f ts p e us = Yields e us (expr_multiplicative malloc f ts p)
  Parses additive f ts p e us = Yields e us (expr_additive malloc f ts p)
  Parses (multiplicative_ l) f ts p e us =
      (left : Dag V) → erase left ≡ l → Yields e us (multiplicative_loop malloc f left left ts p)
  Parses (additive_ l) f ts p e us =
      (left : Dag V) → erase left ≡ l → Yields e us (additive_loop malloc f left left ts p)

  complete :
      {n : Nonterminal V} {ts us : List (Token V)} {e : Ast V}
      → Derives n ts e us
      → Ends n us
      → (f : ℕ) (p : Parser) → 8 * length ts + rank n ≤ f
      → Parses n f ts p e us
  unfolding expr_primary
  complete (value {ts}) end zero p h = absurd (omega arith)
  complete (value {ts}) end (suc f) p h = rw (mkd_lem ts p, bind) (yields _ _ refl)
  complete (parens d) end zero p h = absurd (omega arith)
  complete (parens d) end (suc zero) p h = absurd (omega arith)
  complete (parens d) end (suc (suc f)) p h =
      Yields-bind _ (Yields-or_trace _ (complete d (close_ends _) f p (omega arith)))
        λ d q e. unfold close_paren in yields d q e
  complete (plus d) end zero p h = absurd (omega arith)
  complete (plus d) end (suc f) p h = Yields-or_trace _ (complete d tt f p (omega arith))
  complete (minus d) end zero p h = absurd (omega arith)
  complete (minus {ts} d) end (suc f) p h =
      rw (mkd_lem ts p, bind)
        (Yields-bind _ (Yields-or_trace _ (complete d tt f _ (omega arith)))
          λ d q e. yields _ q (ap Ast.neg e))
  complete (plain d) end zero p h = absurd (omega arith)
  complete (plain (value {v} {ts})) end (suc f) p h =
      complete (value {v = v} {ts = ts}) tt f p (omega arith)
  complete (plain (parens d)) end (suc f) p h = complete (parens d) tt f p (omega arith)
  complete (factors d t) end zero p h = absurd (omega arith)
  complete (factors d t) end (suc zero) p h = absurd (omega (arith, Derives-length d))
  complete (factors d t) end (suc (suc f)) p h =
      Yields-bind _ (complete d tt (suc f) p (omega arith))
        λ left q e. complete t end f q (omega (arith, Derives-length d)) left e
  complete no_factor end zero p h = absurd (omega arith)
  complete no_factor end (suc f) p h = λ left e. rw (end, multiplicative_loop) (yields left p e)
  complete (factor more d t) end zero p h = absurd (omega arith)
  complete (factor {ts} more d t) end (suc zero) p h =
      absurd (omega (arith, length-multiplicative_op ts (FactorOp_lem more)))
  complete (factor {ts} {us} {vs} {ws} {o} more d t) end (suc (suc f)) p h = λ left e.
      let len = length-multiplicative_op ts (FactorOp_lem more) in
      let fits = Derives-length d in
      rw (FactorOp_lem more, multiplicative_loop)
        (rw (mkd_lem us p, bind)
          (Yields-bind _ (Yields-operand _ o (complete d tt (suc f) _ (omega arith))) λ right q e'.
            Yields-bind _
              (Yields-or_trace _
                (complete t end f q (omega arith) (Dag.bin o _ left right) (ap₂ (Ast.bin o) e e')))
              λ d' q' e''.
                rw (multiplicative_loop_stop malloc (suc f) left d' ws q' (omega arith) end)
                  (yields d' q' e'')))
  complete (terms d t) end zero p h = absurd (omega arith)
  complete (terms d t) end (suc zero) p h = absurd (omega (arith, Derives-length d))
  complete (terms d t) end (suc (suc f)) p h =
      Yields-bind _ (complete d (Derives-additive_ t end.0) (suc f) p (omega arith))
        λ left q e. complete t end f q (omega (arith, Derives-length d)) left e
  complete no_term end zero p h = absurd (omega arith)
  complete no_term end (suc f) p h = λ left e. rw (end.1, additive_loop) (yields left p e)
  complete (term more d t) end zero p h = absurd (omega arith)
  complete (term {ts} more d t) end (suc zero) p h =
      absurd (omega (arith, length-additive_op ts (TermOp_lem more)))
  complete (term {ts} {us} {vs} {ws} {o} more d t) end (suc (suc f)) p h = λ left e.
      let len = length-additive_op ts (TermOp_lem more) in
      let fits = Derives-length d in
      rw (TermOp_lem more, additive_loop)
        (rw (mkd_lem us p, bind)
          (Yields-bind _
            (Yields-operand _ o (complete d (Derives-additive_ t end.0) (suc f) _ (omega arith)))
            λ right q e'.
              Yields-bind _
                (Yields-or_trace _ (
                  complete t end f q (omega arith) (Dag.bin o _ left right) (ap₂ (Ast.bin o) e e')))
                λ d' q' e''.
                  rw (additive_loop_stop malloc (suc f) left d' ws q' (omega arith) end.1)
                    (yields d' q' e'')))

  pub multiplicative-Yields :
      {ts us : List (Token V)} {e : Ast V}
      → Derives multiplicative ts e us
      → multiplicative_op us ≡ none
      → (f : ℕ) (p : Parser) → 8 * length ts + 3 ≤ f
      → Yields e us (expr_multiplicative malloc f ts p)
  multiplicative-Yields = complete

  expr-Yields :
      {ts us : List (Token V)} {e : Ast V}
      → Derives additive ts e us
      → Ends additive us
      → (f : ℕ) (p : Parser) → 8 * length ts + 5 ≤ f
      → Yields e us (expr malloc f ts p)
  unfolding expr_primary
  expr-Yields d end zero p h = absurd (omega arith)
  expr-Yields d end (suc f) p h = complete d end f p (omega arith)

  nothing-Ends : Ends {V = V} additive []
  unfolding multiplicative_op additive_op
  nothing-Ends = (refl, refl)

  pub top-Yields :
      (ts : List (Token V)) (p : Parser) {e : Ast V}
      → Derives additive ts e []
      → Yields e [] (top malloc ts p)
  unfolding top end_of_input
  top-Yields ts p derived =
      Yields-bind _ (Yields-or_trace _ (expr-Yields derived nothing-Ends _ p (omega arith)))
        λ d q e. yields d q e
