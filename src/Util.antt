-- ===== src/Util.antt =====
-- The utilities of the backend (backend/src/util): the batch writer and the HTTP retry.
pub mod Batcher
pub mod Retry
pub mod Text
pub mod Workers
mod Tests
