-- ===== src/Tests.antt =====
-- Runs of the model on concrete inputs, and the theorems at inputs that meet their hypotheses.
mod Unify
mod Lexer
mod Generic
mod Equals
mod Block
mod Ast
mod Alpha
mod Deref
mod NodeToType
mod FreeVars
mod FixApps
mod ToMir
mod Infer
mod Transform
