-- ===== src/RawQueue/Refine.antt =====
-- queue.cc keeps the promise of `Fifo`, for a queue with no recycle queue.
pub mod Freeing
pub mod Writes
pub mod Sound
pub mod Drain
pub mod Reads
pub mod Indexed
