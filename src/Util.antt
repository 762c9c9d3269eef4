-- ===== src/Util.antt =====
-- src/airmap/util: the ruler, the simulators, and the tables of the command line.
pub mod CheapRuler
pub mod TelemetrySimulator
pub mod ScenarioSimulator
pub mod TabWriter
