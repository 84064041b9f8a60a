-- ===== src/Jit/Main.antt =====
-- p1/parser.c's parser_open and p1/main.c's main: from a text to the number that is printed.
pub mod Correct
mod Tests
use jitcompilation.Prelude.{
  ℕ, Bool, true, false, Option, none, some, List, [], ◌∷◌, if◌then◌else◌, ◌==◌,
}
use jitcompilation.Jit.Syntax.{Token, Dag}
use jitcompilation.Jit.Doubles.{Doubles}
use jitcompilation.Jit.Lexer.{Lexed, lexer_open}
use jitcompilation.Jit.Outcome.{Parser, Outcome, ok, null, fault, out_of_fuel}
use jitcompilation.Jit.Parser.{top}
use jitcompilation.Jit.Reflect.{Program, generate_with_sigmoid, evaluate}

-- Which calls of the system succeed: malloc for the parser, for the lexer and for the n-th node,
-- realloc at n tokens, fopen of the C file, and loading the compiled module.
pub record System : Type 0 where
  pub parser : Bool
  pub lexer : Bool
  pub node : ℕ → Bool
  pub realloc : ℕ → Bool
  pub opens : Bool
  pub loads : Bool

abbrev pub start : Parser
start = record { id = 0; stop = false; diagnostic = [] }

-- How `main` ends: it prints a number and returns 0, or it returns -1. `undefined` is a fault,
-- or an abort.
pub data Exit (V : Type 0) : Type 0 where
  prints : V → Exit V
  fails undefined no_fuel : Exit V

module _ (D : Doubles) (sys : System) where
  -- `parser->n = lexer_size(…)` and `parser->dag = top(…)`
  unfoldable pub parse_lexed : Lexed D.Val → Outcome (Token D.Val) (Dag D.Val)
  parse_lexed (Lexed.done l) = if l.size == 0 then null start else top sys.node l.tokens start
  parse_lexed Lexed.error = null start
  parse_lexed Lexed.aborts = fault
  parse_lexed Lexed.out_of_fuel = out_of_fuel

  -- Its first line is `assert(safe_strlen(s))`.
  unfoldable pub parser_open : List ℕ → Outcome (Token D.Val) (Dag D.Val)
  unfolding parse_lexed
  parser_open [] = fault
  parser_open (c ∷ s) =
      if sys.parser then parse_lexed (lexer_open D sys.realloc sys.lexer (c ∷ s)) else null start

  -- jitc_compile, jitc_open, jitc_lookup and the call of `evaluate`.
  unfoldable pub compile_and_call : Program D.Val → Exit D.Val
  compile_and_call prog = elim (evaluate D prog) [
    | none ↦ fails
    | some v ↦ if sys.loads then prints v else fails
  ]

  -- What `main` does with the outcome of parser_open.
  unfoldable pub after_parse : Outcome (Token D.Val) (Dag D.Val) → Exit D.Val
  after_parse (ok d ts q) = if sys.opens then compile_and_call (generate_with_sigmoid d) else fails
  after_parse (null q) = fails
  after_parse fault = undefined
  after_parse out_of_fuel = no_fuel

  -- `main` with the expression as its argument.
  unfoldable pub main : List ℕ → Exit D.Val
  unfolding after_parse
  main s = after_parse (parser_open s)
