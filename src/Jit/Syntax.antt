-- ===== src/Jit/Syntax.antt =====
-- The data of p1/lexer.h and p1/parser.h: tokens and the nodes of an expression. `V` stands for the
-- C type `double`.

use jitcompilation.Prelude.{ℕ}

-- `struct lexer_token`; the sentinel LEXER_OP_ of the parser is the end of the list of tokens.
pub data Token (V : Type 0) : Type 0 where
  val : V → Token V
  add sub mul div open_ close : Token V

-- The tags PARSER_DAG_MUL, _DIV, _ADD and _SUB.
pub data Op : Type 0 where
  mul div add sub : Op

-- `enum parser_dag_op`: the number of a tag.
abbrev pub tag : Op → ℕ
tag Op.mul = 3
tag Op.div = 4
tag Op.add = 5
tag Op.sub = 6

-- `struct parser_dag`: a value, a negation or a binary node, each with its `id`.
pub data Dag (V : Type 0) : Type 0 where
  val : ℕ → V → Dag V
  neg : ℕ → Dag V → Dag V
  bin : Op → ℕ → Dag V → Dag V → Dag V

-- An expression: a node without the ids.
pub data Ast (V : Type 0) : Type 0 where
  num : V → Ast V
  neg : Ast V → Ast V
  bin : Op → Ast V → Ast V → Ast V

abbrev pub id_of : {V : Type 0} → Dag V → ℕ
id_of (val i v) = i
id_of (neg i d) = i
id_of (bin o i l r) = i

abbrev pub erase : {V : Type 0} → Dag V → Ast V
erase (val i v) = num v
erase (neg i d) = neg (erase d)
erase (bin o i l r) = bin o (erase l) (erase r)
