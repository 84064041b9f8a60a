-- ===== src/Jit/Parser/Sound.antt =====
-- What a successful call of each function of p1/parser.c has read, and that the fuel suffices: one
-- induction on the fuel.
use jitcompilation.Prelude.{
  ℕ, zero, suc, ◌+◌, ◌*◌, ◌≤◌, Bool, List, [], ◌∷◌, ◌≡◌, inl, inr, Option-cases, length, arith,
}
use jitcompilation.Jit.Syntax.{Token, Dag, erase}
use jitcompilation.Jit.Outcome.{Parser}
use jitcompilation.Jit.Parser.{
  multiplicative_op, additive_op, top, fuel, expr_primary, expr_unary, multiplicative_loop,
  expr_multiplicative_, expr_multiplicative, additive_loop, expr_additive_, expr_additive, expr,
}
use jitcompilation.Jit.Parser.Grammar.{
  primary, unary, multiplicative, additive, multiplicative_, additive_, Derives, Derives-length,
  length-multiplicative_op, length-additive_op, FactorOp-of, TermOp-of,
}
use jitcompilation.Jit.Parser.Numbering.{Numbered}
use jitcompilation.Jit.Parser.Ensures.{
  Ensures, holds, returns_null, Ensures-bind, Ensures-map, Ensures-or_trace, Ensures-operand,
}
use jitcompilation.Jit.Parser.Reads.{
  Reads, Reads-from, mkd-Ensures, close-Ensures, end-Ensures, multiplicative_loop_stop,
  additive_loop_stop,
}

module _ {V : Type 0} (malloc : ℕ → Bool) where
  mutual
    unfolding expr_primary

    primary-Ensures :
        (f : ℕ) (ts : List (Token V)) (p : Parser)
        → 8 * length ts + 1 ≤ f
        → Ensures (Reads primary p.id ts) (expr_primary malloc f ts p)
    primary-Ensures zero ts p h = absurd (omega arith)
    primary-Ensures (suc f) (Token.val v ∷ ts) p h =
        Ensures-bind (mkd-Ensures malloc ts p) λ i us q (same, next, last).
          holds (record { derives = rw same Derives.value; numbered = (next, last); follow = tt })
    primary-Ensures (suc f) (Token.open_ ∷ ts) p h =
        Ensures-bind (Ensures-or_trace _ (expr-Ensures f ts p (omega arith)))
          λ d us q r. close-Ensures d us r
    primary-Ensures (suc f) _ p h = returns_null

    unary-Ensures :
        (f : ℕ) (ts : List (Token V)) (p : Parser)
        → 8 * length ts + 2 ≤ f
        → Ensures (Reads unary p.id ts) (expr_unary malloc f ts p)
    unary-Ensures zero ts p h = absurd (omega arith)
    unary-Ensures (suc f) (Token.add ∷ ts) p h = Ensures-or_trace _ (
        Ensures-map (unary-Ensures f ts p (omega arith)) λ d us q r. record {
          derives = Derives.plus r.derives;
          numbered = r.numbered;
          follow = tt;
        })
    unary-Ensures (suc f) (Token.sub ∷ ts) p h =
        Ensures-bind (mkd-Ensures malloc ts p) λ i us q (same, next, last).
          Ensures-bind (Ensures-or_trace _ (unary-Ensures f us q (rw same (omega arith))))
            λ d vs q' r.
              let r' = Reads-from same last r in
              holds (record {
                derives = Derives.minus r'.derives;
                numbered = (next, r'.numbered);
                follow = tt;
              })
    unary-Ensures (suc f) ts p h =
        Ensures-map (primary-Ensures f ts p (omega arith)) λ d us q r. record {
          derives = Derives.plain r.derives;
          numbered = r.numbered;
          follow = tt;
        }

    factors-Ensures :
        (f : ℕ) {lo : ℕ} (left : Dag V) (ts : List (Token V)) (p : Parser)
        → 8 * length ts + 1 ≤ f
        → Numbered lo left p.id
        → Ensures
            (Reads (multiplicative_ (erase left)) lo ts)
            (multiplicative_loop malloc f left left ts p)
    factors-Ensures zero left ts p h n = absurd (omega arith)
    factors-Ensures (suc f) {lo} left ts p h n = elim (Option-cases (multiplicative_op ts)) [
      | inl done ↦
          rw (done, multiplicative_loop)
            (holds (record { derives = Derives.no_factor; numbered = n; follow = done }))
      | inr ((o, us), more) ↦
          rw (more, multiplicative_loop)
            (let len = length-multiplicative_op ts more in
              Ensures-bind (mkd-Ensures malloc us p) λ i us₁ p₁ (same, next, last).
                Ensures-bind (Ensures-operand _ o (unary-Ensures f us₁ p₁ (rw same (omega arith))))
                  λ right us₂ p₂ r.
                    let r' = Reads-from same last r in
                    Ensures-bind
                      (Ensures-or_trace _ (
                        multiplicative_-Ensures f (Dag.bin o i left right) us₂ p₂
                          (omega (arith, Derives-length r'.derives)) (p.id, next, n, r'.numbered)))
                      λ d us₃ p₃ t.
                        rw (multiplicative_loop_stop malloc f left d us₃ p₃ (omega arith) t.follow)
                          (holds (record {
                            derives = Derives.factor (FactorOp-of ts more) r'.derives t.derives;
                            numbered = t.numbered;
                            follow = t.follow;
                          })))
    ]

    multiplicative_-Ensures :
        (f : ℕ) {lo : ℕ} (left : Dag V) (ts : List (Token V)) (p : Parser)
        → 8 * length ts + 2 ≤ f
        → Numbered lo left p.id
        → Ensures
            (Reads (multiplicative_ (erase left)) lo ts)
            (expr_multiplicative_ malloc f left ts p)
    multiplicative_-Ensures zero left ts p h n = absurd (omega arith)
    multiplicative_-Ensures (suc f) left ts p h n = factors-Ensures f left ts p (omega arith) n

    multiplicative-Ensures :
        (f : ℕ) (ts : List (Token V)) (p : Parser)
        → 8 * length ts + 3 ≤ f
        → Ensures (Reads multiplicative p.id ts) (expr_multiplicative malloc f ts p)
    multiplicative-Ensures zero ts p h = absurd (omega arith)
    multiplicative-Ensures (suc f) ts p h =
        Ensures-bind (unary-Ensures f ts p (omega arith)) λ left us q r.
          Ensures-map
            (multiplicative_-Ensures f left us q (omega (arith, Derives-length r.derives))
              r.numbered)
            λ d vs q' t. record {
              derives = Derives.factors r.derives t.derives;
              numbered = t.numbered;
              follow = t.follow;
            }

    terms-Ensures :
        (f : ℕ) {lo : ℕ} (left : Dag V) (ts : List (Token V)) (p : Parser)
        → 8 * length ts + 1 ≤ f
        → Numbered lo left p.id
        → Ensures (Reads (additive_ (erase left)) lo ts) (additive_loop malloc f left left ts p)
    terms-Ensures zero left ts p h n = absurd (omega arith)
    terms-Ensures (suc f) {lo} left ts p h n = elim (Option-cases (additive_op ts)) [
      | inl done ↦
          rw (done, additive_loop)
            (holds (record { derives = Derives.no_term; numbered = n; follow = done }))
      | inr ((o, us), more) ↦
          rw (more, additive_loop)
            (let len = length-additive_op ts more in
              Ensures-bind (mkd-Ensures malloc us p) λ i us₁ p₁ (same, next, last).
                Ensures-bind
                  (Ensures-operand _ o (multiplicative-Ensures f us₁ p₁ (rw same (omega arith))))
                  λ right us₂ p₂ r.
                    let r' = Reads-from same last r in
                    Ensures-bind
                      (Ensures-or_trace _ (
                        additive_-Ensures f (Dag.bin o i left right) us₂ p₂
                          (omega (arith, Derives-length r'.derives)) (p.id, next, n, r'.numbered)))
                      λ d us₃ p₃ t.
                        rw (additive_loop_stop malloc f left d us₃ p₃ (omega arith) t.follow) (
                          holds (record {
                            derives = Derives.term (TermOp-of ts more) r'.derives t.derives;
                            numbered = t.numbered;
                            follow = t.follow;
                          })))
    ]

    additive_-Ensures :
        (f : ℕ) {lo : ℕ} (left : Dag V) (ts : List (Token V)) (p : Parser)
        → 8 * length ts + 2 ≤ f
        → Numbered lo left p.id
        → Ensures (Reads (additive_ (erase left)) lo ts) (expr_additive_ malloc f left ts p)
    additive_-Ensures zero left ts p h n = absurd (omega arith)
    additive_-Ensures (suc f) left ts p h n = terms-Ensures f left ts p (omega arith) n

    additive-Ensures :
        (f : ℕ) (ts : List (Token V)) (p : Parser)
        → 8 * length ts + 4 ≤ f
        → Ensures (Reads additive p.id ts) (expr_additive malloc f ts p)
    additive-Ensures zero ts p h = absurd (omega arith)
    additive-Ensures (suc f) ts p h =
        Ensures-bind (multiplicative-Ensures f ts p (omega arith)) λ left us q r.
          Ensures-map
            (additive_-Ensures f left us q (omega (arith, Derives-length r.derives)) r.numbered)
            λ d vs q' t. record {
              derives = Derives.terms r.derives t.derives;
              numbered = t.numbered;
              follow = t.follow;
            }

    expr-Ensures :
        (f : ℕ) (ts : List (Token V)) (p : Parser)
        → 8 * length ts + 5 ≤ f
        → Ensures (Reads additive p.id ts) (expr malloc f ts p)
    expr-Ensures zero ts p h = absurd (omega arith)
    expr-Ensures (suc f) ts p h = additive-Ensures f ts p (omega arith)

  -- What `top` returns spans the whole list of tokens.
  pub top-Ensures :
      (ts : List (Token V)) (p : Parser)
      → Ensures (λ d us q. Reads additive p.id ts d us q × (us ≡ [])) (top malloc ts p)
  unfolding top
  top-Ensures ts p =
      Ensures-bind (Ensures-or_trace _ (expr-Ensures (fuel malloc ts) ts p (omega arith)))
        λ d us q r. end-Ensures d us r
