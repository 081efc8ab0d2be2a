-- ===== src/Moderation.antt =====
-- Abuse reports and video moderation (src/api/src/services/abuse_report_service.rs).
pub mod Reasons
pub mod Store
pub mod Action
pub mod Applied
pub mod Report
mod Tests
