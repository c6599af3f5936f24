-- ===== src/Sync.antt =====
-- kernel/src/sync: the locks.
pub mod Lock
pub mod RwLock
pub mod Once
pub mod ReMutex
