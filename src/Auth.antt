-- ===== src/Auth.antt =====
-- Who makes a request: auth.py of the API.
pub mod Urls
pub mod Signed
pub mod Login
