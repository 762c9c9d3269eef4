-- ===== src/Cmds/Scenario/Running.antt =====
-- Runs of the scenario: every callback returns, and the simulation starts with the last key.
use platform_sdk.Base.{
  ℕ, String, true, false, ◌≤◌, ◌≡◌, refl, sym, subst, Option, some, is_some, List, [], ◌∷◌, ◌++◌,
  map, All, length, get_elem?, arith,
}
use platform_sdk.Boost.Context.{success}
use platform_sdk.Boost.Context.{ReturnCode}
use platform_sdk.Core.Error.{Error}
use platform_sdk.Core.Outcome.{Outcome, value, error}
use platform_sdk.Core.Flight.{Flight}
use platform_sdk.Util.CheapRuler.{Reals}
use platform_sdk.Util.ScenarioSimulator.{Participant, ScenarioSimulator}
use platform_sdk.Util.ScenarioSimulator.Reports.{CanFly, create_lem}
use platform_sdk.Util.ScenarioSimulator.Runner.{Runner}
use platform_sdk.Util.ScenarioSimulator.Runner
use platform_sdk.Cmds.Scenario.{
  Command, stop, collect_traffic_monitor_for, request_end_flight_comms_for,
}
use platform_sdk.Cmds.Scenario.Steps.{
  handle_authenticated_result_for, handle_create_flight_result_for,
  handle_traffic_monitoring_result_for, start_simulation, handle_end_flight_comms,
  handle_end_flight,
}
use platform_sdk.Cmds.Scenario.Invariant.{
  HasFlight, keyed, total, IsHonest, IsPrepared, Inv, stop-Inv, subscribed-Inv,
}
use platform_sdk.Cmds.Scenario.Callbacks.{
  collect_authentication_for-Next, collect_flight_id_for-Next, collect_traffic_monitor_for-Next,
  request_flight_status_for-Next, request_create_flight_for-Next,
  request_traffic_monitoring_for-Next, request_start_flight_comms_for-Next,
  request_end_flight_comms_for-Next, request_end_flight_for-Next, schedule_end_for-Next, some_of,
}

module _ {D : Type 0} ⦃r : Reals D⦄ where
  -- A whole callback.
  abbrev pub Goes : ℕ → ℕ → Option (Command D) → Type 0
  Goes i n result = (s' : Command D) × (result ≡ some s') × Inv i 0 n s'

  module _ (i n : ℕ) (s : Command D) {p : Participant D} (goes : s.context.io_stopped ≡ false) where
    module _ (h : Inv i 1 n s) (e : get_elem? s.participants i ≡ some p) where
      pub handle_authenticated_result_for-Goes :
          (now : ℕ) (o : Outcome String (Error D))
          → Goes i n (handle_authenticated_result_for now i o s)
      unfolding handle_authenticated_result_for
      handle_authenticated_result_for-Goes now (error _) =
          (stop ReturnCode.error s, refl, stop-Inv i 1 n ReturnCode.error s goes h)
      handle_authenticated_result_for-Goes now (value a) =
          let (s₁, e₁, h₁, p₁) = collect_authentication_for-Next i 1 n s h e a in
          let (s₂, e₂, h₂, p₂) = request_flight_status_for-Next i 1 n s₁ h₁ p₁ now in
          let (s₃, e₃, h₃, _) =
            request_create_flight_for-Next i 1 n s₂ h₂ p₂ now 0 (omega arith) refl in
          (s₃, rw (e₁, e₂) e₃, h₃)

      pub handle_create_flight_result_for-Goes :
          is_some p.authentication ≡ true
          → (o : Outcome (Flight D) (Error D)) → Goes i n (handle_create_flight_result_for i o s)
      unfolding handle_create_flight_result_for
      handle_create_flight_result_for-Goes known (error _) =
          (stop ReturnCode.error s, refl, stop-Inv i 1 n ReturnCode.error s goes h)
      handle_create_flight_result_for-Goes known (value f) =
          let (s₁, e₁, h₁, p₁) = collect_flight_id_for-Next i 1 n s h e f in
          let (s₂, e₂, h₂, p₂) = request_traffic_monitoring_for-Next i 1 n s₁ h₁ p₁ (known, refl) in
          let (s₃, e₃, h₃, p₃) =
            request_start_flight_comms_for-Next i 1 n s₂ h₂ p₂ (known, refl) 0 (omega arith) in
          let (s₄, e₄, h₄, _) = schedule_end_for-Next i 0 n s₃ h₃ p₃ (known, refl) in
          (s₄, rw (e₁, e₂, e₃) e₄, h₄)

    module _ (h : Inv i 0 n s) (e : get_elem? s.participants i ≡ some p) (flies : HasFlight p) where
      pub handle_traffic_monitoring_result_for-Goes :
          (o : Outcome ℕ (Error D)) → Goes i n (handle_traffic_monitoring_result_for i o s)
      unfolding handle_traffic_monitoring_result_for
      handle_traffic_monitoring_result_for-Goes (error x) =
          let (f, f_lem) = some_of p.flight flies.1 in
          (stop ReturnCode.error s, ground arith, stop-Inv i 0 n ReturnCode.error s goes h)
      handle_traffic_monitoring_result_for-Goes (value m) =
          let (f, f_lem) = some_of p.flight flies.1 in
          let heard : Command D = record s { subscribed = s.subscribed ++ m ∷ [] } in
          let (s₁, e₁, h₁, _) =
            collect_traffic_monitor_for-Next i 0 n heard (subscribed-Inv i 0 n heard.subscribed s h)
              e m in
          let returns : handle_traffic_monitoring_result_for i (value m) s
              ≡ collect_traffic_monitor_for i m heard =
            ground arith in
          (s₁, rw returns e₁, h₁)

      pub handle_end_flight_comms-Goes :
          (o : Outcome (Unit {0}) (Error D)) → Goes i n (handle_end_flight_comms i o s)
      unfolding handle_end_flight_comms
      handle_end_flight_comms-Goes (error _) =
          (stop ReturnCode.error s, refl, stop-Inv i 0 n ReturnCode.error s goes h)
      handle_end_flight_comms-Goes (value _) =
          let (s₁, e₁, h₁, _) = request_end_flight_for-Next i 0 n s h e flies in (s₁, e₁, h₁)

      pub handle_end_flight-Goes :
          (o : Outcome (Unit {0}) (Error D)) → Goes i n (handle_end_flight i o s)
      unfolding handle_end_flight
      handle_end_flight-Goes (error x) =
          (stop ReturnCode.error s, refl, stop-Inv i 0 n ReturnCode.error s goes h)
      handle_end_flight-Goes (value x) =
          let (f, f_lem) = some_of p.flight flies.1 in
          (stop success s, ground arith, stop-Inv i 0 n success s goes h)

      pub request_end_flight_comms_for-Goes : Goes i n (request_end_flight_comms_for i s)
      request_end_flight_comms_for-Goes =
          let (s₁, e₁, h₁, _) = request_end_flight_comms_for-Next i 0 n s h e flies in (s₁, e₁, h₁)

  pub total-le-length : (ps : List (Participant D)) → total ps ≤ length ps
  total-le-length [] = omega arith
  total-le-length (p ∷ ps) = ground (arith, total-le-length ps)

  -- When all keys are there, everybody is prepared.
  All-IsPrepared :
      (ps : List (Participant D)) → All IsHonest ps → total ps ≡ length ps → All IsPrepared ps
  All-IsPrepared [] h e = tt
  All-IsPrepared (p ∷ ps) (h, hs) e =
      let one : keyed p ≡ 1 = ground (arith, total-le-length ps) in
      let key : is_some p.encryption_key ≡ true = ground arith in
      let rest : total ps ≡ length ps = ground (arith, total-le-length ps) in
      ((h one, key), All-IsPrepared ps hs rest)

  -- The key of the last participant starts the simulation.
  pub start_simulation-Starts :
      (now : ℕ) (s : Command D)
      → All CanFly s.participants
      → All IsHonest s.participants
      → total s.participants ≡ length s.participants
      → s.runner.running ≡ false
      → s.runner.joinable ≡ false
      → (simulator : ScenarioSimulator D) × (start_simulation now s
          ≡ some (record s {
            runner = record { running = true; joinable = true; simulator = some simulator };
          }))
        × All IsPrepared (map (λ e. e.0) simulator.state)
  unfolding start_simulation Runner.start
  start_simulation-Starts now s fly honest all idle fresh =
      let (simulator, e, same, _) = create_lem now s.participants fly in
      (
        simulator,
        rw (e, idle, fresh) refl,
        subst (All IsPrepared) (sym same) (All-IsPrepared s.participants honest all),
      )
