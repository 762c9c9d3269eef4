-- ===== src/Monitor/Submitter/Progress/Stall.antt =====
-- A submitter from which there is no way to a flight.
use platform_sdk.Base.{String, true, ◌≡◌, Option, none, some, List, [], ◌∷◌}
use platform_sdk.Core.Outcome.{value}
use platform_sdk.Core.Floating.{Floating}
use platform_sdk.Monitor.Submitter.Types.{
  active, Request, Env, Submitter, authorization_reply, pilot_reply, flights_reply,
}
use platform_sdk.Monitor.Submitter.Events.{
  Event, activates, deactivates, submits, sets_mission, replies,
}
use platform_sdk.Monitor.Submitter.Safety.{HasValue}

module _ {D : Type 0} ⦃fl : Floating D⦄ where
  -- The creation of the flight is marked as requested, and no flight is there.
  record IsStalled (s : Submitter D) : Type 0 where
    is_active : s.state ≡ active
    authorized : HasValue s.authorization
    piloted : HasValue s.pilot_id
    none_left : s.active_flights ≡ some []
    marked : s.create_flight_plan_requested ≡ true
    no_plan : s.flight_plan ≡ none
    no_flight : s.flight ≡ none

  -- Positions, missions and activations.
  abbrev pub FromVehicle : Env × Event D → Type 0
  FromVehicle (env, activates) = Unit {0}
  FromVehicle (env, submits q) = Unit {0}
  FromVehicle (env, sets_mission g) = Unit {0}
  FromVehicle (env, deactivates) = ⊥
  FromVehicle (env, replies r) = ⊥

  abbrev StaysStalled : List (Request D) → Option (Submitter D) → Type 0
  StaysStalled rs none = ⊥
  StaysStalled rs (some s) = IsStalled s × (s.sent ≡ rs)

  -- The callbacks up to the search for flights, on a submitter that was activated without a position.
  abbrev pub introduced : String → String → List (Event D)
  introduced token pilot =
      activates
      ∷ replies (authorization_reply (value token))
      ∷ replies (pilot_reply (value pilot))
      ∷ replies (flights_reply (value []))
      ∷ []
