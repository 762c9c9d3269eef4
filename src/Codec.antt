-- ===== src/Codec.antt =====
-- src/airmap/codec: how values are written to and read from documents.
pub mod Json
