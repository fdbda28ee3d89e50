-- ===== src/Query.antt =====
-- engine/query: the syntax tree and what evaluates it.
pub mod Ast
pub mod Params
pub mod Order
pub mod Like
pub mod Evaluator
pub mod Format
pub mod Lexer
