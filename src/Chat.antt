-- ===== src/Chat.antt =====
-- Messaging: `MessagingService` (src/messaging/messaging.service.ts).
pub mod Store
pub mod Direct
pub mod Groups
pub mod Calls
pub mod Push
pub mod Gateway
