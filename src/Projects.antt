-- ===== src/Projects.antt =====
-- Projects with versioned files: the operations on projects of `IntelligenceService`
-- (src/intelligence/intelligence.service.ts).
pub mod Store
pub mod Manage
pub mod Files
pub mod Reading
pub mod Run
pub mod Latest
pub mod Access
