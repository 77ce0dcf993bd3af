-- ===== src/Security.antt =====
-- The security contexts of main/security, as traces of calls of mbedTLS.
pub mod Calls
pub mod Context
mod Tests
