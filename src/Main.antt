-- ===== src/Main.antt =====
-- The start of src/main.cpp: the command line, the stored settings and the environment.
pub mod Texts
pub mod Table
pub mod Arguments
pub mod Startup
