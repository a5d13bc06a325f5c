-- ===== src/Agex.antt =====
-- crates/agex: the compiler of the agex language.
pub mod Token
pub mod Lexer
pub mod Ast
pub mod Parser
pub mod Hir
pub mod Codegen
