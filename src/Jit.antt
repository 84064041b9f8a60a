-- ===== src/Jit.antt =====
-- p1: the expression evaluator: lexer, parser and code generator.
pub mod Syntax
pub mod Outcome
pub mod Doubles
pub mod Lexer
pub mod Parser
pub mod Reflect
pub mod Main
