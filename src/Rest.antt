-- ===== src/Rest.antt =====
-- src/airmap/rest: the clients of the services.
pub mod Telemetry
