-- ===== src/Examples.antt =====
-- The theorems at concrete inputs, and runs of the code.
mod Fixtures
mod Submitter
mod Vehicles
mod Routes
mod Scenarios
mod Telemetry
mod Daemons
mod Channels
mod Tokens
mod Airspaces
mod Values
mod Services
mod Altitudes
mod Subscriptions
mod Responses
mod Calls
mod Callbacks
mod Queries
mod Requests
mod Tables
mod Streams
mod Logins
