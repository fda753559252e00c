-- ===== src/Callback.antt =====
-- Callbacks to merchants (internal/service/merchant_callback_service.go). Text is the bytes that
-- are stored; Target queues a callback and finds where it goes; Secret signs it; Send makes one
-- delivery and records its result; Worker is the scheduled job and the manual retry.
pub mod Text
pub mod Target
pub mod Secret
pub mod Send
pub mod Worker
pub mod Calm
pub mod Schedule
pub mod Bounded
pub mod Recorded
pub mod Finished
pub mod Storable
pub mod Notified
