-- ===== src/Cmds.antt =====
-- src/airmap/cmds: the commands that simulate a scenario and that log in.
pub mod Login
pub mod Scenario
