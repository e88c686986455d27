-- ===== src/Closure.antt =====
-- closure/: moving functions to the top level.
pub mod FreeVars
pub mod FixApps
pub mod Transform
