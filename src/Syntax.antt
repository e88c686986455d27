-- ===== src/Syntax.antt =====
-- syntax/: from source text to tokens.
pub mod Lexer
