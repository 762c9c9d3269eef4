-- ===== src/Boost.antt =====
-- src/airmap/boost: the event loop that everything runs on.
pub mod Context
