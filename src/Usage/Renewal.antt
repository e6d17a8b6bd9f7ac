-- ===== src/Usage/Renewal.antt =====
-- The allowance at the beginning of a month, and at the first request of a user
-- (src/intelligence/usage/usage.service.ts).
use auth_backend.Services.{Services}
