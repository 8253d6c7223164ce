-- ===== src/Files.antt =====
-- The files of a user: `ArgoFileRegister` of files.py.
pub mod Ranges
pub mod Download
pub mod Store
