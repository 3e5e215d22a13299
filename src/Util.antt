-- ===== src/Util.antt =====
-- The helpers of src/util.cpp that compute something.
pub mod SizeUnit
pub mod Prefix
