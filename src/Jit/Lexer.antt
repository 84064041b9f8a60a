-- ===== src/Jit/Lexer.antt =====
-- p1/lexer.c: a text, a list of character codes with no NUL, is cut into tokens.
pub mod Spell
use jitcompilation.Prelude.{
  ℕ, zero, suc, ◌+◌, ◌*◌, ◌%◌, Bool, true, false, ◌&&◌, ◌||◌, Option, none, some, List, [], ◌∷◌,
  ◌++◌, if◌then◌else◌, ◌==◌, leb, length, drop,
}
use jitcompilation.Jit.Syntax.{Token}
use jitcompilation.Jit.Doubles.{Doubles}

-- `struct lexer`
pub record Lexer (V : Type 0) : Type 0 where
  pub size : ℕ
  pub tokens : List (Token V)

-- What `tokenize` can return: 0 with the lexer filled, or -1. `aborts` is a failed assertion of
-- lexer_open; `out_of_fuel` has no counterpart.
pub data Lexed (V : Type 0) : Type 0 where
  done : Lexer V → Lexed V
  error aborts out_of_fuel : Lexed V

-- OPERATORS, and the tags from LEXER_OP_ADD on.
abbrev pub operators : {V : Type 0} → List (ℕ × Token V)
operators =
    (b'+', Token.add)
    ∷ (b'-', Token.sub)
    ∷ (b'*', Token.mul)
    ∷ (b'/', Token.div)
    ∷ (b'(', Token.open_)
    ∷ (b')', Token.close)
    ∷ []

-- The `for` over OPERATORS.
unfoldable pub find_operator : {V : Type 0} → ℕ → List (ℕ × Token V) → Option (Token V)
find_operator c [] = none
find_operator c ((o, t) ∷ os) = if o == c then some t else find_operator c os

-- isspace, in the C locale.
unfoldable pub isspace : ℕ → Bool
isspace c = c == 32 || (leb 9 c && leb c 13)

-- `realloc n` says whether the array can grow when it holds `n` tokens, as it does at each 100.
module _ {V : Type 0} (realloc : ℕ → Bool) where
  unfoldable pub mktoken : Lexer V → Token V → Option (Lexer V)
  mktoken l t =
      if l.size % 100 == 0 && (if realloc l.size then false else true)
      then none
      else some (record { size = l.size + 1; tokens = l.tokens ++ t ∷ [] })

module _ (D : Doubles) (realloc : ℕ → Bool) where
  -- The `while (*s)`. A number takes the characters that strtod takes, and there is none where it
  -- takes no character.
  unfoldable pub tokenize : ℕ → Lexer D.Val → List ℕ → Lexed D.Val
  tokenize zero l s = out_of_fuel
  tokenize (suc f) l [] = done l
  tokenize (suc f) l (c ∷ s) = elim (find_operator c operators) [
    | some t ↦ elim (mktoken realloc l t) [ none ↦ error | some l' ↦ tokenize f l' s ]
    | none ↦ elim (isspace c) [
      | true ↦ tokenize f l s
      | false ↦ elim (mktoken realloc l (Token.val (D.strtod (c ∷ s)).0)) [
        | none ↦ error
        | some l' ↦ elim ((D.strtod (c ∷ s)).1) [ zero ↦ error | suc n ↦ tokenize f l' (drop n s) ]
      ]
    ]
  ]

  -- `assert(safe_strlen(s))`, then the loop. `lexer` says whether the allocation of the lexer succeeds.
  unfoldable pub lexer_open : Bool → List ℕ → Lexed D.Val
  lexer_open lexer [] = aborts
  lexer_open lexer (c ∷ s) =
      if lexer
      then tokenize (length (c ∷ s) + 1) (record { size = 0; tokens = [] }) (c ∷ s)
      else error
