-- ===== src/Net.antt =====
-- The network: src/airmap/net.
pub mod Mqtt
pub mod Response
pub mod Jsend
pub mod Middleware
pub mod Uri
pub mod Request
pub mod Requesters
