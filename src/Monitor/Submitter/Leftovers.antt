-- ===== src/Monitor/Submitter/Leftovers.antt =====
-- The flights that the search finds: the submitter ends each of them before it creates its own.
use platform_sdk.Base.{
  String, true, false, not, ◌||◌, ◌≡◌, refl, Option, none, some, ◌>>=◌, List, [], ◌∷◌, ◌++◌, ap,
  ◌∙◌, Option-cases, inl, inr, str_eq, str_eq_iff,
}
use platform_sdk.Core.Floating.{Floating}
use platform_sdk.Core.Outcome.{value}
use platform_sdk.Core.Flight.{Flight}
use platform_sdk.Monitor.Submitter.Types.{
  Request, end_active_flight, flights_reply, ended_reply, Env, Submitter,
}
use platform_sdk.Monitor.Submitter.Plan.{request_create_flight_plan}
use platform_sdk.Monitor.Submitter.Steps.{
  erase_flight, is_empty, end_flights, handle_request_end_active_flight_finished,
  handle_request_end_active_flights_finished, request_end_active_flights,
  handle_request_active_flights_finished,
}
use platform_sdk.Monitor.Submitter.Events.{Event, replies, deliver, step, run}

module _ {D : Type 0} ⦃fl : Floating D⦄ where
  pub run-append :
      (es fs : List (Env × Event D)) (s : Submitter D)
      → run (es ++ fs) s ≡ (run es s >>= λ t. run fs t)
  unfolding run
  run-append [] fs s = refl
  run-append (e ∷ es) fs s = elim (Option-cases (step e s)) [
    | inl q ↦ rw q
    | inr (t, q) ↦ rw q (run-append es fs t)
  ]

  -- The calls that end flights, the latest first.
  abbrev pub ended : String → List (Flight D) → List (Request D) → List (Request D)
  ended token [] before = before
  ended token (f ∷ fs) before = ended token fs (end_active_flight token f.id ∷ before)

  -- The replies to these, in the order of the calls.
  abbrev endings : Env → List (Flight D) → List (Env × Event D)
  endings env [] = []
  endings env (f ∷ fs) = (env, replies (ended_reply f.id (value tt))) ∷ endings env fs

  -- The reply to the search, and those to the calls that it leads to.
  abbrev pub found : Env → List (Flight D) → List (Env × Event D)
  found env fs = (env, replies (flights_reply (value fs))) ∷ endings env fs

  -- No flight is left over.
  abbrev pub cleared : String → List (Flight D) → Submitter D → Submitter D
  cleared token fs s = record s {
    active_flights = some [];
    end_active_flights_requested = not (is_empty fs) || s.end_active_flights_requested;
    sent = ended token fs s.sent;
  }

  end_flights_lem :
      (token : String) (fs : List (Flight D)) (s : Submitter D)
      → s.authorization ≡ some token
      → end_flights fs s ≡ some (record s { sent = ended token fs s.sent })
  unfolding end_flights
  end_flights_lem token [] s h = refl
  end_flights_lem token (f ∷ fs) s h =
      ap
        (λ (o : Option String).
          o >>= λ a. end_flights fs (record s { sent = end_active_flight a f.id ∷ s.sent }))
        h
      ∙ end_flights_lem token fs (record s { sent = end_active_flight token f.id ∷ s.sent }) h

  erase_flight_head : (f : Flight D) (fs : List (Flight D)) → erase_flight f.id (f ∷ fs) ≡ fs
  unfolding erase_flight
  erase_flight_head f fs =
      let same : str_eq f.id f.id ≡ true = (str_eq_iff f.id f.id).1 refl in rw same

  bind_some : (o : Option (Submitter D)) → (o >>= λ s. some s) ≡ o
  bind_some none = refl
  bind_some (some s) = refl

  run-endings :
      (env : Env) (f : Flight D) (fs : List (Flight D)) (s : Submitter D)
      → s.active_flights ≡ some (f ∷ fs)
      → run (endings env (f ∷ fs)) s
        ≡ request_create_flight_plan env (record s { active_flights = some [] })
  unfolding run step deliver handle_request_end_active_flight_finished
      handle_request_end_active_flights_finished
  run-endings env f [] s h = rw (h, erase_flight_head f []) (bind_some _)
  run-endings env f (g ∷ fs) s h =
      rw (h, erase_flight_head f (g ∷ fs))
        (run-endings env g fs (record s { active_flights = some (g ∷ fs) }) refl)

  pub run-found :
      (env : Env) (token : String) (fs : List (Flight D)) (s : Submitter D)
      → s.authorization ≡ some token
      → s.end_active_flights_requested ≡ false
      → run (found env fs) s ≡ request_create_flight_plan env (cleared token fs s)
  unfolding run step deliver handle_request_active_flights_finished request_end_active_flights
      handle_request_end_active_flights_finished
  run-found env token [] s h k = bind_some _
  run-found env token (f ∷ fs) s h k =
      rw
        (
          k,
          end_flights_lem token (f ∷ fs)
              (record s { active_flights = some (f ∷ fs); end_active_flights_requested = true }) h,
        )
        (run-endings env f fs
          (record s {
            active_flights = some (f ∷ fs);
            end_active_flights_requested = true;
            sent = ended token (f ∷ fs) s.sent;
          })
          refl)
