-- ===== src/Monitor.antt =====
-- src/airmap/monitor: the daemon that watches vehicles and submits their telemetry.
pub mod Submitter
pub mod VehicleMonitor
pub mod FanOut
pub mod Service
pub mod Client
pub mod Daemon
