-- ===== src/Util/ScenarioSimulator.antt =====
-- src/airmap/util/scenario_simulator.cpp: the participants of a scenario, each with a simulator of
-- its own, and the thread that updates them.
pub mod Reports
pub mod Runner
use platform_sdk.Base.{ℕ, String, Option, none, some, ◌>>=◌, List, [], ◌∷◌}
use platform_sdk.Core.Flight.{Flight}
use platform_sdk.Core.Geometry.{Coordinate, Geometry, details_for_polygon}
use platform_sdk.Util.CheapRuler.{Reals}
use platform_sdk.Util.TelemetrySimulator.{TelemetrySimulator}
use platform_sdk.Util.TelemetrySimulator

pub record User : Type 0 where
  pub username : String
  pub password : String
  pub client_id : String

-- `aircraft` and `pilot` by their ids. A traffic monitor is known by its address.
pub record Participant (D : Type 0) : Type 0 where
  pub id : ℕ
  pub aircraft : String
  pub pilot : String
  pub user : Option User
  pub geometry : Geometry D
  pub velocity : D
  pub authentication : Option String
  pub flight : Option (Flight D)
  pub monitor : Option ℕ
  pub encryption_key : Option String

pub record Scenario (D : Type 0) : Type 0 where
  pub participants : List (Participant D)
  pub duration : Option ℕ

-- Participants and simulators are two vectors of one length: a list of pairs has them side by side.
pub record ScenarioSimulator (D : Type 0) : Type 0 where
  pub state : List (Participant D × TelemetrySimulator D)
  pub last_update : Option ℕ

-- What the enumerator of `update` is called with.
pub record Report (D : Type 0) : Type 0 where
  pub now : ℕ
  pub participant : Participant D
  pub coordinate : Coordinate D

module _ {D : Type 0} ⦃r : Reals D⦄ where
  -- The loop of the constructor; all simulators are made at one time here.
  unfoldable pub simulators :
      ℕ → List (Participant D) → Option (List (Participant D × TelemetrySimulator D))
  simulators time [] = some []
  simulators time (p ∷ ps) = do
    polygon ← details_for_polygon p.geometry
    s ← TelemetrySimulator.create polygon time time
    rest ← simulators time ps
    some ((p, s) ∷ rest)

  unfoldable pub create : ℕ → List (Participant D) → Option (ScenarioSimulator D)
  create time ps = do
    state ← simulators time ps
    some (record { state = state; last_update = none })

  unfoldable pub start : ℕ → ScenarioSimulator D → ScenarioSimulator D
  start now s = record s { last_update = some now }

  -- The loop of `update`: the simulators after it, and the calls of the enumerator in their order.
  unfoldable pub update_all :
      ℕ
      → List (Participant D × TelemetrySimulator D)
      → Option (List (Participant D × TelemetrySimulator D) × List (Report D))
  update_all now [] = some ([], [])
  update_all now ((p, s) ∷ rest) = do
    (s', c) ← TelemetrySimulator.update now now s
    (rest', reports) ← update_all now rest
    some ((p, s') ∷ rest', (record { now = now; participant = p; coordinate = c }) ∷ reports)

  unfoldable pub update : ℕ → ScenarioSimulator D → Option (ScenarioSimulator D × List (Report D))
  update now s = do
    (state, reports) ← update_all now s.state
    some (record { state = state; last_update = some now }, reports)
