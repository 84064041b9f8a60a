-- ===== src/Jit/Outcome.antt =====
-- The state that the functions of p1/parser.c share, and how a call of one of them can end.
use jitcompilation.Prelude.{ℕ, String, Bool, List}

-- `struct parser`. Its position `i` among the `n` tokens is the list of the tokens not yet read,
-- which the functions take apart; `diagnostic` is what TRACE_ONCE has printed, in pieces.
pub record Parser : Type 0 where
  pub id : ℕ
  pub stop : Bool
  pub diagnostic : List String

-- `ok` is a node that the call returns, with the tokens left; `null` is a NULL that it returns;
-- `fault` is a read outside of an array, after which C promises nothing, or a failed assertion. `out_of_fuel` has no
-- counterpart in the program.
pub data Outcome (T A : Type 0) : Type 0 where
  ok : A → List T → Parser → Outcome T A
  null : Parser → Outcome T A
  fault out_of_fuel : Outcome T A

-- A function of the parser: it reads tokens from the front of a list.
abbrev pub Parse : Type 0 → Type 0 → Type 0
Parse T A = List T → Parser → Outcome T A

abbrev pub bind : {T A B : Type 0} → Outcome T A → (A → Parse T B) → Outcome T B
bind (ok a ts p) k = k a ts p
bind (null p) k = null p
bind fault k = fault
bind out_of_fuel k = out_of_fuel

infixl 5 ◌>>=◌ ◌>>◌
abbrev pub ◌>>=◌ : {T A B : Type 0} → Parse T A → (A → Parse T B) → Parse T B
◌>>=◌ m k ts p = bind (m ts p) k

abbrev pub ◌>>◌ : {T B : Type 0} → Parse T (Unit {0}) → Parse T B → Parse T B
m >> k = m >>= λ _. k

abbrev pub pure : {T A : Type 0} → A → Parse T A
pure a ts p = ok a ts p
