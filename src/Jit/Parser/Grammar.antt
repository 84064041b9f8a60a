-- ===== src/Jit/Parser/Grammar.antt =====
-- The grammar that the comments of p1/parser.c state, as derivations: what a nonterminal reads from
-- the front of a list of tokens, the expression that it stands for, and the tokens behind it.
use jitcompilation.Prelude.{
  ℕ, suc, refl, subst, Option, none, ◌+◌, ◌≤◌, ◌≡◌, some, List, ◌∷◌, length, arith,
}
use jitcompilation.Jit.Syntax.{Token, Op, Ast}
use jitcompilation.Jit.Parser.{multiplicative_op, additive_op}

-- The operators `*` and `/` in front of tokens, and `+` and `-`.
pub data FactorOp {V : Type 0} : List (Token V) → Op → List (Token V) → Type 0 where
  times : {ts : List (Token V)} → FactorOp (Token.mul ∷ ts) Op.mul ts
  over : {ts : List (Token V)} → FactorOp (Token.div ∷ ts) Op.div ts

pub data TermOp {V : Type 0} : List (Token V) → Op → List (Token V) → Type 0 where
  added : {ts : List (Token V)} → TermOp (Token.add ∷ ts) Op.add ts
  subtracted : {ts : List (Token V)} → TermOp (Token.sub ∷ ts) Op.sub ts

-- A tail stands behind the expression to its left.
pub data Nonterminal (V : Type 0) : Type 0 where
  primary unary multiplicative additive : Nonterminal V
  multiplicative_ additive_ : Ast V → Nonterminal V

pub data Derives {V : Type 0}
    : Nonterminal V → List (Token V) → Ast V → List (Token V) → Type 0 where
  value : {v : V} {ts : List (Token V)} → Derives primary (Token.val v ∷ ts) (Ast.num v) ts
  parens :
      {ts us : List (Token V)} {e : Ast V}
      → Derives additive ts e (Token.close ∷ us)
      → Derives primary (Token.open_ ∷ ts) e us
  plus :
      {ts us : List (Token V)} {e : Ast V}
      → Derives unary ts e us
      → Derives unary (Token.add ∷ ts) e us
  minus :
      {ts us : List (Token V)} {e : Ast V}
      → Derives unary ts e us
      → Derives unary (Token.sub ∷ ts) (Ast.neg e) us
  plain : {ts us : List (Token V)} {e : Ast V} → Derives primary ts e us → Derives unary ts e us
  factors :
      {ts us vs : List (Token V)} {l e : Ast V}
      → Derives unary ts l us
      → Derives (multiplicative_ l) us e vs
      → Derives multiplicative ts e vs
  no_factor : {ts : List (Token V)} {l : Ast V} → Derives (multiplicative_ l) ts l ts
  factor :
      {ts us vs ws : List (Token V)} {l r e : Ast V} {o : Op}
      → FactorOp ts o us
      → Derives unary us r vs
      → Derives (multiplicative_ (Ast.bin o l r)) vs e ws
      → Derives (multiplicative_ l) ts e ws
  terms :
      {ts us vs : List (Token V)} {l e : Ast V}
      → Derives multiplicative ts l us
      → Derives (additive_ l) us e vs
      → Derives additive ts e vs
  no_term : {ts : List (Token V)} {l : Ast V} → Derives (additive_ l) ts l ts
  term :
      {ts us vs ws : List (Token V)} {l r e : Ast V} {o : Op}
      → TermOp ts o us
      → Derives multiplicative us r vs
      → Derives (additive_ (Ast.bin o l r)) vs e ws
      → Derives (additive_ l) ts e ws

module _ {V : Type 0} where
  pub length-multiplicative_op :
      (ts : List (Token V)) {o : Op} {us : List (Token V)}
      → multiplicative_op ts ≡ some (o, us)
      → length ts ≡ suc (length us)
  unfolding multiplicative_op
  length-multiplicative_op ts h = ground arith

  pub length-additive_op :
      (ts : List (Token V)) {o : Op} {us : List (Token V)}
      → additive_op ts ≡ some (o, us)
      → length ts ≡ suc (length us)
  unfolding additive_op
  length-additive_op ts h = ground arith

  -- The tests of the loops find these operators, and no other.
  pub FactorOp_lem :
      {ts us : List (Token V)} {o : Op} → FactorOp ts o us → multiplicative_op ts ≡ some (o, us)
  unfolding multiplicative_op
  FactorOp_lem times = refl
  FactorOp_lem over = refl

  pub TermOp_lem :
      {ts us : List (Token V)} {o : Op} → TermOp ts o us → additive_op ts ≡ some (o, us)
  unfolding additive_op
  TermOp_lem added = refl
  TermOp_lem subtracted = refl

  -- The answer of a test as an operator in front of `ts`.
  abbrev AnswerFactor : List (Token V) → Option (Op × List (Token V)) → Type 0
  AnswerFactor ts none = Unit
  AnswerFactor ts (some (o, us)) = FactorOp ts o us

  abbrev AnswerTerm : List (Token V) → Option (Op × List (Token V)) → Type 0
  AnswerTerm ts none = Unit
  AnswerTerm ts (some (o, us)) = TermOp ts o us

  answer_factor : (ts : List (Token V)) → AnswerFactor ts (multiplicative_op ts)
  unfolding multiplicative_op
  answer_factor (Token.mul ∷ ts) = times
  answer_factor (Token.div ∷ ts) = over
  answer_factor _ = tt

  answer_term : (ts : List (Token V)) → AnswerTerm ts (additive_op ts)
  unfolding additive_op
  answer_term (Token.add ∷ ts) = added
  answer_term (Token.sub ∷ ts) = subtracted
  answer_term _ = tt

  pub FactorOp-of :
      (ts : List (Token V)) {us : List (Token V)} {o : Op}
      → multiplicative_op ts ≡ some (o, us)
      → FactorOp ts o us
  FactorOp-of ts h = subst (AnswerFactor ts) h (answer_factor ts)

  pub TermOp-of :
      (ts : List (Token V)) {us : List (Token V)} {o : Op}
      → additive_op ts ≡ some (o, us)
      → TermOp ts o us
  TermOp-of ts h = subst (AnswerTerm ts) h (answer_term ts)

  -- How many tokens a nonterminal reads at the least.
  abbrev pub least : Nonterminal V → ℕ
  least (multiplicative_ l) = 0
  least (additive_ l) = 0
  least _ = 1

  pub Derives-length :
      {n : Nonterminal V} {ts us : List (Token V)} {e : Ast V}
      → Derives n ts e us
      → least n + length us ≤ length ts
  Derives-length value = omega arith
  Derives-length (parens d) = omega (arith, Derives-length d)
  Derives-length (plus d) = omega (arith, Derives-length d)
  Derives-length (minus d) = omega (arith, Derives-length d)
  Derives-length (plain d) = omega (arith, Derives-length d)
  Derives-length (factors d t) = omega (arith, Derives-length d, Derives-length t)
  Derives-length no_factor = omega arith
  Derives-length (factor {ts} h d t) =
      omega
        (arith, length-multiplicative_op ts (FactorOp_lem h), Derives-length d, Derives-length t)
  Derives-length (terms d t) = omega (arith, Derives-length d, Derives-length t)
  Derives-length no_term = omega arith
  Derives-length (term {ts} h d t) =
      omega (arith, length-additive_op ts (TermOp_lem h), Derives-length d, Derives-length t)
