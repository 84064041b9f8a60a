-- ===== src/Jit/Main/Correct.antt =====
-- The program as a whole: what it prints is the sigmoid of the value of the expression.
use jitcompilation.Prelude.{
  ℕ, true, false, Option, none, some, sym, List, [], ◌∷◌, ◌≡◌, refl, ◌∙◌, arith, length, ◌==◌, ap,
  subst,
}
use jitcompilation.Jit.Syntax.{Token, Dag, Ast, erase}
use jitcompilation.Jit.Doubles.{Doubles}
use jitcompilation.Jit.Lexer.{Lexer, Lexed, lexer_open}
use jitcompilation.Jit.Lexer.Spell.{
  Spelling, Counts, lexer_open-Counts, spell_tokens, lexer_open-spell_tokens,
}
use jitcompilation.Jit.Outcome.{Parser, Outcome, ok, null, fault, out_of_fuel}
use jitcompilation.Jit.Parser.{top}
use jitcompilation.Jit.Parser.Grammar.{additive, Derives, Derives-length}
use jitcompilation.Jit.Parser.Correct.{top_sound}
use jitcompilation.Jit.Parser.Complete.{Yields, Yields-ok, top-Yields}
use jitcompilation.Jit.Reflect.{generate_with_sigmoid, evaluate}
use jitcompilation.Jit.Reflect.Meaning.{answer_of}
use jitcompilation.Jit.Reflect.Run.{evaluate-generate}
use jitcompilation.Jit.Main.{
  System, Exit, start, prints, fails, parse_lexed, after_parse, parser_open, compile_and_call, main,
}

-- Every call of the system succeeds.
pub record AllSucceed (sys : System) : Type 0 where
  pub parser : sys.parser ≡ true
  pub lexer : sys.lexer ≡ true
  pub node : (n : ℕ) → sys.node n ≡ true
  pub realloc : (n : ℕ) → sys.realloc n ≡ true
  pub opens : sys.opens ≡ true
  pub loads : sys.loads ≡ true

-- How `main` ends with an answer, and without one.
abbrev pub ends_with : {V : Type 0} → Option V → Exit V
ends_with none = fails
ends_with (some v) = prints v

module _ (D : Doubles) (sys : System) where
  -- The text lexes to tokens from which the grammar derives the expression `e`.
  pub record Reads (s : List ℕ) (e : Ast D.Val) : Type 0 where
    pub lexer : Lexer D.Val
    pub lexed : lexer_open D sys.realloc sys.lexer s ≡ Lexed.done lexer
    pub derived : Derives additive lexer.tokens e []

  parse_lexed-ok :
      (r : Lexed D.Val) {d : Dag D.Val} {ts : List (Token D.Val)} {q : Parser}
      → parse_lexed D sys r ≡ ok d ts q
      → (l : Lexer D.Val) × (r ≡ Lexed.done l) × (top sys.node l.tokens start ≡ ok d ts q)
  unfolding parse_lexed
  parse_lexed-ok (Lexed.done l) h = (l, refl, ground arith)
  parse_lexed-ok Lexed.error h = cc
  parse_lexed-ok Lexed.aborts h = cc
  parse_lexed-ok Lexed.out_of_fuel h = cc

  parser_open-ok :
      (s : List ℕ) {d : Dag D.Val} {ts : List (Token D.Val)} {q : Parser}
      → parser_open D sys s ≡ ok d ts q
      → (l : Lexer D.Val) × (lexer_open D sys.realloc sys.lexer s ≡ Lexed.done l)
        × (top sys.node l.tokens start ≡ ok d ts q)
  unfolding parser_open
  parser_open-ok [] h = absurd (cc h)
  parser_open-ok (c ∷ s) h =
      parse_lexed-ok (lexer_open D sys.realloc sys.lexer (c ∷ s)) (ground arith)

  after_parse-prints :
      (r : Outcome (Token D.Val) (Dag D.Val)) {v : D.Val}
      → after_parse D sys r ≡ prints v
      → (d : Dag D.Val) × (ts : List (Token D.Val)) × (q : Parser) × (r ≡ ok d ts q)
        × (evaluate D (generate_with_sigmoid d) ≡ some v)
  unfolding after_parse compile_and_call
  after_parse-prints (ok d ts q) h = (d, ts, q, refl, ground arith)
  after_parse-prints (null q) h = cc
  after_parse-prints fault h = cc
  after_parse-prints out_of_fuel h = cc

  -- Whatever the system's calls do, a number that `main` prints is the answer of an expression that the
  -- grammar derives from the tokens of the text: the logistic function of its value, which it has only
  -- without an infinity or a NaN among its numbers.
  pub main_sound :
      (s : List ℕ) (v : D.Val)
      → main D sys s ≡ prints v
      → (e : Ast D.Val) × Reads s e × (answer_of D e ≡ some v)
  unfolding main
  main_sound s v h =
      let (d, ts, q, opened, value) = after_parse-prints (parser_open D sys s) h in
      let (l, lexed, parsed) = parser_open-ok s opened in
      let (derived, none_left, numbered) = top_sound sys.node l.tokens ts start q d parsed in
      (
        erase d,
        record { lexer = l; lexed = lexed; derived = derived },
        sym (evaluate-generate D d q.id numbered) ∙ value,
      )

  module _ (well : AllSucceed sys) where
    parse_lexed-Yields :
        (l : Lexer D.Val) {e : Ast D.Val}
        → l.size ≡ length l.tokens
        → Derives additive l.tokens e []
        → Yields e [] (parse_lexed D sys (Lexed.done l))
    unfolding parse_lexed
    parse_lexed-Yields l counted derived =
        let more : (l.size == 0) ≡ false = ground (arith, Derives-length derived) in
        rw more (top-Yields sys.node well.node l.tokens start derived)

    parser_open_step :
        (s : List ℕ) (l : Lexer D.Val)
        → lexer_open D sys.realloc sys.lexer s ≡ Lexed.done l
        → parser_open D sys s ≡ parse_lexed D sys (lexer_open D sys.realloc sys.lexer s)
    unfolding parser_open lexer_open
    parser_open_step [] l h = absurd (cc h)
    parser_open_step (c ∷ s) l h = rw well.parser refl

    after_parse_step :
        (d : Dag D.Val) (ts : List (Token D.Val)) (q : Parser) (answer : Option D.Val)
        → evaluate D (generate_with_sigmoid d) ≡ answer
        → after_parse D sys (ok d ts q) ≡ ends_with answer
    unfolding after_parse compile_and_call
    after_parse_step d ts q none h = ground (arith, well.opens)
    after_parse_step d ts q (some v) h = ground (arith, well.opens, well.loads)

    -- If every call of the system succeeds and the grammar derives an expression from the tokens of
    -- the text, `main` prints the answer of the expression, and fails if it has none.
    pub main_complete :
        (s : List ℕ) (e : Ast D.Val) → Reads s e → main D sys s ≡ ends_with (answer_of D e)
    unfolding main
    main_complete s e r =
        let counted : Counts D sys.realloc (Lexed.done r.lexer) =
          subst (Counts D sys.realloc) r.lexed (lexer_open-Counts D sys.realloc sys.lexer s) in
        let (d, q, run, same) = Yields-ok (parse_lexed-Yields r.lexer counted r.derived) in
        let opened = parser_open_step s r.lexer r.lexed ∙ (ap (parse_lexed D sys) r.lexed ∙ run) in
        let (l, lexed, parsed) = parser_open-ok s opened in
        let numbered = (top_sound sys.node l.tokens [] start q d parsed).2 in
        ap (after_parse D sys) opened
        ∙ (after_parse_step d [] q (answer_of D (erase d)) (evaluate-generate D d q.id numbered)
            ∙ ap (λ x. ends_with (answer_of D x)) same)

    -- If every call of the system succeeds and strtod reads the spelling of each number among some
    -- tokens back, `main`, on these tokens spelled out, prints the answer of the expression that the
    -- grammar derives from them, and fails if it has none.
    pub main-spell_tokens :
        (spell : D.Val → List ℕ) (ts : List (Token D.Val)) (e : Ast D.Val)
        → Spelling D spell ts
        → Derives additive ts e []
        → main D sys (spell_tokens D spell ts) ≡ ends_with (answer_of D e)
    main-spell_tokens spell ts e law derived = main_complete (spell_tokens D spell ts) e (record {
      lexer = record { size = length ts; tokens = ts };
      lexed = rw well.lexer (
          lexer_open-spell_tokens D spell sys.realloc well.realloc ts
            (omega (arith, Derives-length derived)) law);
      derived = derived;
    })
