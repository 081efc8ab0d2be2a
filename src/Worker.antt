-- ===== src/Worker.antt =====
-- The video worker (src/worker/src/main.rs).
pub mod Error
pub mod World
pub mod Media
pub mod Process
pub mod Retry
mod Tests
