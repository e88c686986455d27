-- ===== src/Sema.antt =====
-- sema/: resolving symbols and inferring types.
pub mod Unify
pub mod Generic
pub mod Scope
pub mod Alpha
pub mod Deref
pub mod NodeToType
pub mod ToMir
pub mod Infer
