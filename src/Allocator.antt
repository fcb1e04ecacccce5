-- ===== src/Allocator.antt =====
-- src/allocator.rs: the shared-memory allocator. The manager of free chunks stands behind a mutex;
-- each call takes the lock for the whole of its work, so calls of several processes come one after
-- another. `lock_errno` is what `pthread_mutex_lock` returned.
pub mod FreeChunk
pub mod Chunks
pub mod Ops
pub mod Ownership
pub mod Start
pub mod History
pub mod Reuse
pub mod Usable
pub use Ops.*
