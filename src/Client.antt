-- ===== src/Client.antt =====
-- video-converter-worker/internal/client: how a worker talks to the master.
pub mod Retry
pub mod Download
