-- ===== src/Worker.antt =====
-- video-converter-worker/internal/worker: the local cache and the polling of the master.
pub mod Cache
pub mod Polling
pub mod Pool
pub mod Execute
