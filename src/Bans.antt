-- ===== src/Bans.antt =====
-- The bans of users and of addresses (src/api/src/services/ban_service.rs).
pub mod Rows
pub mod Store
pub mod User
pub mod Ip
mod Tests
