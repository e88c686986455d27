-- ===== src/Mir.antt =====
-- mir: the intermediate representation.
pub mod Block
pub mod Val
pub mod Formed
