-- ===== src/Util/ScenarioSimulator/Runner.antt =====
-- `ScenarioSimulator::Runner` of src/airmap/util/scenario_simulator.cpp: the thread of a simulation.
use platform_sdk.Base.{Bool, true, false, Option, none, some, if◌then◌else◌}
use platform_sdk.Util.ScenarioSimulator.{ScenarioSimulator}

-- `joinable` tells that a thread was made, `simulator` what it updates.
pub record Runner (D : Type 0) : Type 0 where
  pub running : Bool
  pub joinable : Bool
  pub simulator : Option (ScenarioSimulator D)

module _ {D : Type 0} where
  unfoldable pub create : Runner D
  create = record { running = false; joinable = false; simulator = none }

  -- The assignment of a thread to one that is still joinable ends the program: `none`.
  unfoldable pub start : ScenarioSimulator D → Runner D → Option (Runner D)
  start simulator runner =
      if runner.running
      then some runner
      else if runner.joinable
      then none
      else some (record { running = true; joinable = true; simulator = some simulator })

  unfoldable pub stop : Runner D → Runner D
  stop runner = record runner { running = false }
