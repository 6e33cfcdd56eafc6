-- ===== src/TinyKv.antt =====
-- pkg/tinykv: a key-value store whose entries expire.
pub mod Heap
pub mod Store
pub mod Expire
pub mod Snapshot
mod Tests
