-- ===== src/Jit/Main/Tests.antt =====
-- The pipeline of p1 on concrete texts. Here a `double` is a number below 256 that is written as a
-- run of digits 1, one more than the number; the numbers from 128 on are the negative ones, which have
-- no spelling of their own, and 255 stands for an infinity.
use jitcompilation.Prelude.{
  ℕ, zero, suc, ◌+◌, ◌-◌, ◌*◌, ◌/◌, ◌%◌, true, false, none, some, List, [], ◌∷◌, ◌++◌, ◌≡◌, ◌≢◌,
  ◌↔◌, refl, ap, arith, length, replicate, if◌then◌else◌, ◌==◌,
}
use jitcompilation.Jit.Syntax.{Token, Op, Dag, Ast}
use jitcompilation.Jit.Doubles.{Doubles}
use jitcompilation.Jit.Lexer.{Lexed, done, find_operator, isspace, mktoken, tokenize, lexer_open}
use jitcompilation.Jit.Lexer.Spell.{
  Spells, Spelling, spell_token, spell_tokens, lexer_open-spell_tokens, lexer_open-ne-out_of_fuel,
}
use jitcompilation.Jit.Outcome.{ok, fault, out_of_fuel}
use jitcompilation.Jit.Parser.{
  trace_once, or_trace, bad_operand, operand, multiplicative_op, additive_op, close_paren,
  end_of_input, mkd, expr_primary, top,
}
use jitcompilation.Jit.Parser.Grammar.{
  multiplicative, additive, Derives, value, parens, minus, plain, factors, no_factor, factor, times,
  added, subtracted, terms, no_term, term,
}
use jitcompilation.Jit.Parser.Numbering.{Numbered}
use jitcompilation.Jit.Parser.Correct.{Accepts, top_sound, top-ne-out_of_fuel, top_iff, top_fault}
use jitcompilation.Jit.Reflect.{
  reflect, generate_with_sigmoid, sigmoid, apply, declare, run_line, run_lines, evaluate,
}
use jitcompilation.Jit.Reflect.Meaning.{answer_of}
use jitcompilation.Jit.Reflect.Run.{evaluate-generate}
use jitcompilation.Jit.Main.{
  System, start, prints, undefined, parser_open, compile_and_call, after_parse, main,
}
use jitcompilation.Jit.Main.Correct.{
  AllSucceed, Reads, ends_with, main_sound, main_complete, main-spell_tokens,
}

ones : List ℕ → ℕ
ones [] = 0
ones (c ∷ s) = if c == b'1' then suc (ones s) else 0

abbrev unary : Doubles
unary = record {
  Val = ℕ;
  zero = 0;
  one = 1;
  negate = λ a. (256 - a) % 256;
  add = λ a b. (a + b) % 256;
  subtract = λ a b. (a + 256 - b) % 256;
  multiply = λ a b. (a * b) % 256;
  divide = λ a b. 1000 * a / b;
  is_zero = λ a. a == 0;
  exp = λ a. 2 * a;
  printed = λ a. if a == 255 then none else some a;
  strtod = λ s. (ones s - 1, ones s);
}

abbrev spell : ℕ → List ℕ
spell v = b'1' ∷ replicate v b'1'

ones-spell :
    (v : ℕ) (s : List ℕ) → ones (replicate v b'1' ++ 32 ∷ s) ≡ length {A = ℕ} (replicate v b'1')
unfolding ones
ones-spell zero s = refl
ones-spell (suc v) s = ap suc (ones-spell v s)

length-spell : (v : ℕ) → length {A = ℕ} (replicate v b'1') ≡ v
length-spell zero = refl
length-spell (suc v) = ap suc (length-spell v)

unary-Spells : (v : ℕ) → Spells unary v (spell v)
unfolding find_operator isspace ones
unary-Spells v = record {
  head = b'1';
  rest = replicate v b'1';
  spelled = refl;
  no_operator = refl;
  no_space = refl;
  read = λ s. ground (arith, ones-spell v s, length-spell v);
}

abbrev well : System
well = record {
  parser = true;
  lexer = true;
  node = λ _. true;
  realloc = λ _. true;
  opens = true;
  loads = true;
}

well-AllSucceed : AllSucceed well
well-AllSucceed = record {
  parser = refl;
  lexer = refl;
  node = λ n. refl;
  realloc = λ n. refl;
  opens = refl;
  loads = refl;
}

-- 2 - 3 * - ( 4 )
abbrev tokens : List (Token ℕ)
tokens =
    Token.val 2
    ∷ Token.sub
    ∷ Token.val 3
    ∷ Token.mul
    ∷ Token.sub
    ∷ Token.open_
    ∷ Token.val 4
    ∷ Token.close
    ∷ []

tokens-Spelling : Spelling unary spell tokens
tokens-Spelling = (unary-Spells 2, (unary-Spells 3, (unary-Spells 4, tt)))

abbrev tree : Ast ℕ
tree = Ast.bin Op.sub (Ast.num 2) (Ast.bin Op.mul (Ast.num 3) (Ast.neg (Ast.num 4)))

one_term : {v : ℕ} {ts : List (Token ℕ)} → Derives multiplicative (Token.val v ∷ ts) (Ast.num v) ts
one_term = factors (plain value) no_factor

derived : Derives additive tokens tree []
derived = terms one_term (
    term subtracted
      (factors (plain value)
        (factor times (minus (plain (parens (terms one_term no_term)))) no_factor))
      no_term)

runs : main unary well (spell_tokens unary spell tokens) ≡ prints 4
unfolding main spell_tokens spell_token parser_open lexer_open tokenize find_operator isspace ones
    mktoken top or_trace expr_primary mkd trace_once operand multiplicative_op additive_op
    close_paren end_of_input after_parse compile_and_call evaluate generate_with_sigmoid reflect
    run_lines run_line declare apply sigmoid
runs = refl

seven :
    top {V = ℕ} (λ _. true) (Token.val 7 ∷ []) start ≡ ok (Dag.val 1 7) [] (record start { id = 1 })
unfolding top or_trace expr_primary mkd trace_once operand multiplicative_op additive_op close_paren
    end_of_input
seven = refl

text_fails_at_end : main unary well (b'1' ∷ b'1' ∷ b'+' ∷ []) ≡ undefined
unfolding main parser_open lexer_open tokenize find_operator isspace ones mktoken top or_trace
    expr_primary mkd trace_once operand bad_operand multiplicative_op additive_op close_paren
    end_of_input after_parse compile_and_call
text_fails_at_end = refl

top_sound_example :
    Derives {V = ℕ} additive (Token.val 7 ∷ []) (Ast.num 7) []
    × (◌≡◌ {A = List (Token ℕ)} [] [])
    × Numbered {V = ℕ} 0 (Dag.val 1 7) 1
top_sound_example =
    top_sound {V = ℕ} (λ _. true) (Token.val 7 ∷ []) [] start (record start { id = 1 })
      (Dag.val 1 7) seven

main-spell_tokens_example :
    main unary well (spell_tokens unary spell tokens) ≡ ends_with (answer_of unary tree)
main-spell_tokens_example =
    main-spell_tokens unary well well-AllSucceed spell tokens tree tokens-Spelling derived

top-ne-out_of_fuel_example : top {V = ℕ} (λ _. true) tokens start ≢ out_of_fuel
top-ne-out_of_fuel_example = top-ne-out_of_fuel (λ _. true) tokens start

top_iff_example : Accepts (λ _. true) tokens start tree ↔ Derives additive tokens tree []
top_iff_example = top_iff (λ _. true) (λ n. refl) tokens start tree

top_fault_example : top {V = ℕ} (λ _. true) (Token.val 1 ∷ Token.add ∷ []) start ≡ fault
unfolding additive_op
top_fault_example =
    top_fault (λ _. true) (λ n. refl) (Token.val 1 ∷ Token.add ∷ []) (Token.add ∷ []) [] start
      one_term added tt

evaluate-generate_example :
    evaluate unary (generate_with_sigmoid (Dag.bin Op.add 2 (Dag.val 1 5) (Dag.val 3 6)))
    ≡ answer_of unary (Ast.bin Op.add (Ast.num 5) (Ast.num 6))
evaluate-generate_example =
    evaluate-generate unary (Dag.bin Op.add 2 (Dag.val 1 5) (Dag.val 3 6)) 3
      (1, refl, (refl, refl), (refl, refl))

-- `double t1 = inf;`
infinity_fails : evaluate unary (generate_with_sigmoid (Dag.neg 1 (Dag.val 2 255))) ≡ none
unfolding evaluate generate_with_sigmoid reflect run_lines run_line
infinity_fails = refl

empty_text : main unary well [] ≡ undefined
unfolding main parser_open after_parse
empty_text = refl

lexer_open-spell_tokens_example :
    lexer_open unary (λ _. true) true (spell_tokens unary spell tokens)
    ≡ done (record { size = 8; tokens = tokens })
lexer_open-spell_tokens_example =
    lexer_open-spell_tokens unary spell (λ _. true) (λ n. refl) tokens (omega arith) tokens-Spelling

lexer_open-ne-out_of_fuel_example :
    lexer_open unary (λ _. false) true (b'1' ∷ []) ≢ Lexed.out_of_fuel
lexer_open-ne-out_of_fuel_example = lexer_open-ne-out_of_fuel unary (λ _. false) true (b'1' ∷ [])

main_sound_example :
    (e : Ast ℕ) × Reads unary well (spell_tokens unary spell tokens) e
    × (answer_of unary e ≡ some 4)
main_sound_example = main_sound unary well (spell_tokens unary spell tokens) 4 runs

text_Reads : Reads unary well (spell_tokens unary spell tokens) tree
text_Reads = record {
  lexer = record { size = 8; tokens = tokens };
  lexed =
      lexer_open-spell_tokens unary spell (λ _. true) (λ n. refl) tokens (omega arith)
        tokens-Spelling;
  derived = derived;
}

main_complete_example :
    main unary well (spell_tokens unary spell tokens) ≡ ends_with (answer_of unary tree)
main_complete_example =
    main_complete unary well well-AllSucceed (spell_tokens unary spell tokens) tree text_Reads
