-- ===== src/Indexes.antt =====
-- engine/indexes.
pub mod KeyCodec
