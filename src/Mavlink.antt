-- ===== src/Mavlink.antt =====
-- src/airmap/mavlink: messages from vehicles, the channels that carry them and the vehicles that
-- they describe.
pub mod Message
pub mod Mission
pub mod Vehicle
pub mod Tracker
pub mod Channel
pub mod TcpRoute
