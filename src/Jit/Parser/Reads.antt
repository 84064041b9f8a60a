-- ===== src/Jit/Parser/Reads.antt =====
-- What a call of p1/parser.c that returns a node has read, and the calls that do not recur.
use mathlib.Core.Path.{subst₂}
use jitcompilation.Prelude.{
  ℕ, zero, suc, ◌<◌, Bool, none, List, [], ◌∷◌, ◌≡◌, refl, inl, inr, Bool-cases, arith,
}
use jitcompilation.Jit.Syntax.{Token, Dag, erase}
use jitcompilation.Jit.Outcome.{Parser, ok, bind, pure}
use jitcompilation.Jit.Parser.{
  multiplicative_op, additive_op, mkd, close_paren, end_of_input, multiplicative_loop,
  additive_loop,
}
use jitcompilation.Jit.Parser.Grammar.{
  Nonterminal, primary, unary, multiplicative, additive, multiplicative_, additive_, Derives,
}
use jitcompilation.Jit.Parser.Numbering.{Numbered}
use jitcompilation.Jit.Parser.Ensures.{Ensures, holds, returns_null}

module _ {V : Type 0} where
  -- No operator of its own level stands behind what a nonterminal has read.
  abbrev pub Follow : Nonterminal V → List (Token V) → Type 0
  Follow primary us = Unit
  Follow unary us = Unit
  Follow multiplicative us = multiplicative_op us ≡ none
  Follow (multiplicative_ l) us = multiplicative_op us ≡ none
  Follow additive us = additive_op us ≡ none
  Follow (additive_ l) us = additive_op us ≡ none

  -- The tokens of `ts` before `us` make up the node `d`, whose nodes are numbered above `lo`.
  pub record Reads (n : Nonterminal V) (lo : ℕ) (ts : List (Token V)) (d : Dag V)
      (us : List (Token V)) (q : Parser) : Type 0 where
    pub derives : Derives n ts (erase d) us
    pub numbered : Numbered lo d q.id
    pub follow : Follow n us

  pub close-Ensures :
      (d : Dag V) {lo : ℕ} {ts : List (Token V)} (us : List (Token V)) {q : Parser}
      → Reads additive lo ts d us q
      → Ensures (Reads primary lo (Token.open_ ∷ ts)) (bind (close_paren us q) λ _. pure d)
  unfolding close_paren
  close-Ensures d (Token.close ∷ us) r =
      holds (record { derives = Derives.parens r.derives; numbered = r.numbered; follow = tt })
  close-Ensures d _ r = returns_null

  pub end-Ensures :
      (d : Dag V) {lo : ℕ} {ts : List (Token V)} (us : List (Token V)) {q : Parser}
      → Reads additive lo ts d us q
      → Ensures
          (λ d us q. Reads additive lo ts d us q × (us ≡ []))
          (bind (end_of_input us q) λ _. pure d)
  unfolding end_of_input
  end-Ensures d [] r = holds (r, refl)
  end-Ensures d (t ∷ us) r = returns_null

  -- A node is read behind the allocation of another.
  pub Reads-from :
      {n : Nonterminal V} {ts us vs : List (Token V)} {i j : ℕ} {d : Dag V} {q : Parser}
      → us ≡ ts
      → j ≡ i
      → Reads n j us d vs q
      → Reads n i ts d vs q
  Reads-from {n} {vs} {d} {q} same last r = subst₂ (λ k xs. Reads n k xs d vs q) last same r

module _ {V : Type 0} (malloc : ℕ → Bool) where
  pub mkd-Ensures :
      (ts : List (Token V)) (p : Parser)
      → Ensures (λ i us q. (us ≡ ts) × (i ≡ suc p.id) × (q.id ≡ i)) (mkd malloc ts p)
  unfolding mkd
  mkd-Ensures ts p = elim (Bool-cases (malloc p.id)) [
    | inl made ↦ rw (made, mkd) (holds (refl, omega arith, refl))
    | inr full ↦ rw (full, mkd) returns_null
  ]

  pub multiplicative_loop_stop :
      (f : ℕ) (left d : Dag V) (ts : List (Token V)) (p : Parser)
      → 0 < f
      → multiplicative_op ts ≡ none
      → multiplicative_loop malloc f left d ts p ≡ ok d ts p
  unfolding multiplicative_loop
  multiplicative_loop_stop zero left d ts p h e = elim h [ ]
  multiplicative_loop_stop (suc f) left d ts p h e = rw (e, multiplicative_loop)

  pub additive_loop_stop :
      (f : ℕ) (left d : Dag V) (ts : List (Token V)) (p : Parser)
      → 0 < f
      → additive_op ts ≡ none
      → additive_loop malloc f left d ts p ≡ ok d ts p
  unfolding additive_loop
  additive_loop_stop zero left d ts p h e = elim h [ ]
  additive_loop_stop (suc f) left d ts p h e = rw (e, additive_loop)
