-- ===== src/Base.antt =====
-- The effect of an async function of the program, shared by its components.
pub mod Eff
