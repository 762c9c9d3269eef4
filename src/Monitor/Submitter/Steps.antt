-- ===== src/Monitor/Submitter/Steps.antt =====
-- The start of the chain: authorization, pilot, the flights that are still active; then the public
-- methods and the callbacks.
use platform_sdk.Base.{
  ◌/◌, String, Bool, true, false, not, ◌||◌, Option, none, some, ◌>>=◌, is_some, List, [], ◌∷◌,
  if◌then◌else◌, str_eq,
}
use platform_sdk.Core.Floating.{Floating}
use platform_sdk.Core.Flight.{Flight}
use platform_sdk.Monitor.Submitter.Types.{
  State, active, inactive, GlobalPositionInt, Position, authenticate_with_password,
  authenticate_anonymously, authenticated, search, end_active_flight, submit_updates, Env,
  Submitter,
}
use platform_sdk.Monitor.Submitter.Comms.{send}
use platform_sdk.Monitor.Submitter.Plan.{request_create_flight_plan}

-- `Flights` in the order of the vector, less the first of that id.
unfoldable pub erase_flight : {D : Type 0} → String → List (Flight D) → List (Flight D)
erase_flight id [] = []
erase_flight id (f ∷ fs) = if str_eq f.id id then fs else f ∷ erase_flight id fs

abbrev pub is_empty {ℓ} : {A : Type ℓ} → List A → Bool
is_empty [] = true
is_empty (x ∷ xs) = false

abbrev pub is_active : State → Bool
is_active active = true
is_active inactive = false

-- The loop over the flights to end: one call for each.
unfoldable pub end_flights : {D : Type 0} → List (Flight D) → Submitter D → Option (Submitter D)
end_flights [] s = some s
end_flights (f ∷ fs) s = do
  authorization ← s.authorization
  end_flights fs (send (end_active_flight authorization f.id) s)

module _ {D : Type 0} ⦃fl : Floating D⦄ (env : Env) where
  open env use {now, uuid}
  open fl use {quotient, of_ℕ}

  unfoldable pub handle_request_end_active_flights_finished : Submitter D → Option (Submitter D)
  handle_request_end_active_flights_finished s = request_create_flight_plan env s

  unfoldable pub handle_request_end_active_flight_finished :
      String → Submitter D → Option (Submitter D)
  handle_request_end_active_flight_finished id s = do
    flights ← s.active_flights
    let rest = erase_flight id flights
    let s' = record s { active_flights = some rest }
    if is_empty rest then handle_request_end_active_flights_finished s' else some s'

  -- The loop reads `active_flights_` where it may be unset.
  unfoldable pub request_end_active_flights : Submitter D → Option (Submitter D)
  request_end_active_flights s = elim s.active_flights [
    | some [] ↦ handle_request_end_active_flights_finished s
    | some (f ∷ fs) ↦
        if s.end_active_flights_requested
        then some s
        else end_flights (f ∷ fs) (record s { end_active_flights_requested = true })
    | none ↦ if s.end_active_flights_requested then some s else none
  ]

  unfoldable pub handle_request_active_flights_finished :
      List (Flight D) → Submitter D → Option (Submitter D)
  handle_request_active_flights_finished flights s =
      request_end_active_flights (record s { active_flights = some flights })

  unfoldable pub request_active_flights : Submitter D → Option (Submitter D)
  request_active_flights s = elim s.active_flights [
    | some flights ↦ handle_request_active_flights_finished flights s
    | none ↦
        if s.active_flights_requested
        then some s
        else some (send (search now now s.pilot_id) (record s { active_flights_requested = true }))
  ]

  unfoldable pub handle_request_pilot_id_finished : String → Submitter D → Option (Submitter D)
  handle_request_pilot_id_finished pilot s =
      request_active_flights (record s { pilot_id = some pilot })

  unfoldable pub request_pilot_id : Submitter D → Option (Submitter D)
  request_pilot_id s = elim s.pilot_id [
    | some pilot ↦ handle_request_pilot_id_finished pilot s
    | none ↦
        if s.pilot_id_requested
        then some s
        else let marked = record s { pilot_id_requested = true } in
          elim s.authorization [
            | some authorization ↦ some (send (authenticated authorization) marked)
            | none ↦ some marked
          ]
  ]

  unfoldable pub handle_request_authorization_finished : String → Submitter D → Option (Submitter D)
  handle_request_authorization_finished authorization s =
      request_pilot_id (record s { authorization = some authorization })

  unfoldable pub request_authorization : Submitter D → Option (Submitter D)
  request_authorization s = elim s.authorization [
    | some authorization ↦ handle_request_authorization_finished authorization s
    | none ↦
        if s.authorization_requested
        then some s
        else let marked = record s { authorization_requested = true } in
          elim s.credentials.oauth [
            | some oauth ↦ some (send (authenticate_with_password oauth) marked)
            | none ↦ some (send (authenticate_anonymously uuid) marked)
          ]
  ]

  unfoldable pub activate : Submitter D → Option (Submitter D)
  activate s = request_authorization (record s { state = active })

  -- The position scaled to degrees and metres.
  unfoldable pub position_of : GlobalPositionInt → Position D
  position_of p = record {
    timestamp = now / 1000;
    latitude = quotient p.lat 10000000;
    longitude = quotient p.lon 10000000;
    altitude_msl = quotient p.alt 1000;
    altitude_gl = quotient p.relative_alt 1000;
    horizontal_accuracy = of_ℕ 2;
  }

  unfoldable pub submit : GlobalPositionInt → Submitter D → Option (Submitter D)
  submit position s =
      let s' = record s { current_position = some position } in
      if not (is_active s.state)
      then some s'
      else if not (is_some s.authorization)
          || not (is_some s.flight)
          || not (is_some s.encryption_key)
      then request_authorization s'
      else do
        flight ← s.flight
        key ← s.encryption_key
        some (send (submit_updates flight key (position_of position)) s')
