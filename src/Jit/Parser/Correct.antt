-- ===== src/Jit/Parser/Correct.antt =====
-- The parser of p1/parser.c as a whole: what it accepts, how it numbers, and how it can fail.
use jitcompilation.Prelude.{
  ℕ, suc, ◌+◌, ◌*◌, ◌≤◌, Bool, true, some, List, [], ◌∷◌, ◌≡◌, ◌≢◌, refl, length, arith, ◌↔◌, subst,
}
use jitcompilation.Jit.Syntax.{Token, Op, Dag, Ast, erase}
use jitcompilation.Jit.Outcome.{Parser, ok, null, fault, out_of_fuel, Parse, bind}
use jitcompilation.Jit.Parser.{
  or_trace, operand, bad_operand, additive_op, additive_names, expr_primary, expr_multiplicative,
  additive_loop, expr_additive_, expr, fuel, top,
}
use jitcompilation.Jit.Parser.Grammar.{multiplicative, additive, Derives, TermOp, TermOp_lem}
use jitcompilation.Jit.Parser.Numbering.{Numbered}
use jitcompilation.Jit.Parser.Ensures.{Ensures-ok, Ensures-out_of_fuel}
use jitcompilation.Jit.Parser.Sound.{top-Ensures}
use jitcompilation.Jit.Parser.Complete.{
  Yields-ok, multiplicative-Yields, mkd_lem, top-Yields, one_operator,
}

-- `top` returns a node of the expression `e`, with no token left.
abbrev pub Accepts : {V : Type 0} → (ℕ → Bool) → List (Token V) → Parser → Ast V → Type 0
Accepts {V} malloc ts p e =
    (d : Dag V) × (q : Parser) × (top malloc ts p ≡ ok d [] q) × (erase d ≡ e)

module _ {V : Type 0} (malloc : ℕ → Bool) where
  -- Whatever the allocator does, a node that `top` returns spans all tokens and is derived by the
  -- grammar of the comments, and its nodes are numbered consecutively, from the parser's last id
  -- on, as they stand from left to right.
  pub top_sound :
      (ts us : List (Token V)) (p q : Parser) (d : Dag V)
      → top malloc ts p ≡ ok d us q
      → Derives additive ts (erase d) [] × (us ≡ []) × Numbered p.id d q.id
  top_sound ts us p q d h =
      let (r, none_left) = Ensures-ok (top-Ensures malloc ts p) h in
      (subst (λ x. Derives additive ts (erase d) x) none_left r.derives, none_left, r.numbered)

  -- The fuel that `top` hands out is enough for every list of tokens and every allocator.
  pub top-ne-out_of_fuel : (ts : List (Token V)) (p : Parser) → top malloc ts p ≢ out_of_fuel
  top-ne-out_of_fuel ts p = Ensures-out_of_fuel (top-Ensures malloc ts p)

module _ {V : Type 0} (malloc : ℕ → Bool) (made : (n : ℕ) → malloc n ≡ true) where
  -- If no allocation fails, `top` accepts a list of tokens as the expression `e` exactly when the
  -- grammar of the comments derives `e` from the whole list.
  pub top_iff :
      (ts : List (Token V)) (p : Parser) (e : Ast V)
      → Accepts malloc ts p e ↔ Derives additive ts e []
  top_iff ts p e = (
    (λ (d, q, h, same).
        subst (λ x. Derives additive ts x []) same (top_sound malloc ts [] p q d h).0),
    (λ derived. Yields-ok (top-Yields malloc made ts p derived)),
  )

  -- No unary expression begins here.
  abbrev pub StartsNoOperand : List (Token V) → Type 0
  StartsNoOperand [] = Unit
  StartsNoOperand (Token.mul ∷ ts) = Unit
  StartsNoOperand (Token.div ∷ ts) = Unit
  StartsNoOperand (Token.close ∷ ts) = Unit
  StartsNoOperand _ = ⊥

  no_operand :
      (ts : List (Token V)) (f : ℕ) (p : Parser)
      → StartsNoOperand ts
      → expr_multiplicative malloc (suc (suc (suc f))) ts p ≡ null p
  unfolding expr_primary
  no_operand [] f p h = refl
  no_operand (Token.mul ∷ ts) f p h = refl
  no_operand (Token.div ∷ ts) f p h = refl
  no_operand (Token.close ∷ ts) f p h = refl
  no_operand (Token.val v ∷ ts) f p h = absurd h
  no_operand (Token.add ∷ ts) f p h = absurd h
  no_operand (Token.sub ∷ ts) f p h = absurd h
  no_operand (Token.open_ ∷ ts) f p h = absurd h

  -- The table of the additive loop has no entry for its own operators.
  missing_name :
      {A : Type 0} (us : List (Token V)) {o : Op} {vs : List (Token V)} (p : Parser)
      → additive_op us ≡ some (o, vs)
      → bad_operand {T = Token V} {A = A} additive_names o p ≡ fault
  unfolding additive_op bad_operand
  missing_name us p h = ground arith

  operand_fault :
      {A : Type 0} (k : Dag V → Parse (Token V) A) (us : List (Token V)) (f : ℕ)
      {vs : List (Token V)} (p : Parser) {o : Op}
      → additive_op us ≡ some (o, vs)
      → StartsNoOperand vs
      → bind (operand additive_names o (expr_multiplicative malloc (suc (suc (suc f))) vs p)) k
        ≡ fault
  unfolding operand
  operand_fault k us f {vs} p op none_there =
      rw (no_operand vs f p none_there, operand) (rw (missing_name us p op))

  expr_step :
      (f : ℕ) (ts : List (Token V)) (p : Parser)
      → expr malloc (suc (suc f)) ts p
        ≡ bind (expr_multiplicative malloc f ts p) (expr_additive_ malloc f)
  unfolding expr_primary
  expr_step f ts p = refl

  tail_step :
      (f : ℕ) (left : Dag V) (ts : List (Token V)) (p : Parser)
      → expr_additive_ malloc (suc f) left ts p ≡ additive_loop malloc f left left ts p
  unfolding expr_primary
  tail_step f left ts p = refl

  loop_fault :
      (f : ℕ) (left : Dag V) (us vs : List (Token V)) (p : Parser) {o : Op}
      → additive_op us ≡ some (o, vs)
      → StartsNoOperand vs
      → additive_loop malloc (suc (suc (suc (suc f)))) left left us p ≡ fault
  unfolding additive_loop
  loop_fault f left us vs p op none_there =
      rw (op, additive_loop)
        (rw (mkd_lem malloc made vs p, bind) (operand_fault _ us f _ op none_there))

  additive_fault :
      (f : ℕ) (ts us vs : List (Token V)) (p : Parser) {l : Ast V} {o : Op}
      → 8 * length ts ≤ f
      → Derives multiplicative ts l us
      → additive_op us ≡ some (o, vs)
      → StartsNoOperand vs
      → expr malloc (suc (suc (suc (suc (suc (suc (suc f))))))) ts p ≡ fault
  additive_fault f ts us vs p h first op none_there =
      let (left, q, run, same) = Yields-ok (
        multiplicative-Yields malloc made first (one_operator us op) (suc (suc (suc (suc (suc f)))))
          p (omega arith)) in
      rw (expr_step, run) (rw tail_step (loop_fault f left us vs q op none_there))

  -- If no allocation fails, an operator + or - behind a first term makes the parser read outside of
  -- an array when no operand follows it: the message is looked up at index 2 or 3 of a table of 2.
  pub top_fault :
      (ts us vs : List (Token V)) (p : Parser) {l : Ast V} {o : Op}
      → Derives multiplicative ts l us
      → TermOp us o vs
      → StartsNoOperand vs
      → top malloc ts p ≡ fault
  unfolding top or_trace
  top_fault ts us vs p first op none_there =
      let k = 12 * length ts + 5 in
      let enough : fuel malloc ts ≡ suc (suc (suc (suc (suc (suc (suc k)))))) = omega arith in
      rw enough (rw (additive_fault k ts us vs p (omega arith) first (TermOp_lem op) none_there))
