-- ===== src/Auth.antt =====
-- Sessions: refresh tokens and their rotation (src/api/src/auth/service.rs).
pub mod Store
pub mod Refresh
mod Tests
