-- ===== src/Worker.antt =====
-- zizq/src/worker.rs: the long-running consumer of jobs. Durations are in milliseconds.
pub mod Backoff
pub mod Builder
pub mod Ack
pub mod Handle
pub mod Dispatch
