-- ===== src/Jit/Doubles.antt =====
-- What p1 uses of `double` and of libc's conversions, as a parameter of the model.
use jitcompilation.Prelude.{ℕ, Bool, Option, List}

-- `Val` is `double`. `is_zero` is the test of `t ? a : b`; `printed v` is the number that a C compiler
-- reads back from the text that fprintf prints for `v` by `%f`, or `none` where that text is no number, as
-- for an infinity ("inf") and for no number ("nan"). `strtod` gives the number read at the
-- front of a text and how many characters it takes, 0 where it reads none.
pub record Doubles : Type 1 where
  pub Val : Type 0
  pub zero : Val
  pub one : Val
  pub negate : Val → Val
  pub add : Val → Val → Val
  pub subtract : Val → Val → Val
  pub multiply : Val → Val → Val
  pub divide : Val → Val → Val
  pub is_zero : Val → Bool
  pub exp : Val → Val
  pub printed : Val → Option Val
  pub strtod : List ℕ → Val × ℕ
