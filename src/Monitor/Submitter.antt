-- ===== src/Monitor/Submitter.antt =====
-- src/airmap/monitor/telemetry_submitter.{h,cpp}: the state machine that authenticates, creates a
-- flight, starts its communications and then submits telemetry.
-- `Types` has the state, the calls of the client and their callbacks, `Steps` the methods. The
-- modules below are proofs.
pub mod Types
pub mod Comms
pub mod Plan
pub mod Steps
pub mod Events
pub mod Calls
pub mod Safety
pub mod Budget
pub mod Deactivation
pub mod Leftovers
pub mod Progress
