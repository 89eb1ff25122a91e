-- ===== src/RawQueue.antt =====
-- aos/linux_code/ipc_lib/queue.{h,cc}: the shared-memory queue.
pub mod Shm
pub mod Messages
pub mod Write
pub mod Read
pub mod View
pub mod Fifo
pub mod Refine
pub mod Create
pub mod FreeLists
pub mod History
pub mod Checks
mod Tests
