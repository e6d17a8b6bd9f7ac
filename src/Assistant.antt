-- ===== src/Assistant.antt =====
-- What the assistant knows of models and users (src/intelligence/intelligence.service.ts).
pub mod Models
pub mod Instructions
