-- ===== src/Storage.antt =====
-- engine/storage: the disk manager, the buffer pool, and the page formats over them.
pub mod Disk
pub mod Buffer
pub mod SlottedPage
pub mod SequentialPage
mod Tests
