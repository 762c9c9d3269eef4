-- ===== src/Cmds/Scenario/Completion.antt =====
-- From the creation of the command on, through any callbacks.
use platform_sdk.Base.{
  ℕ, String, true, false, ◌+◌, ◌%◌, ◌<◌, ◌≤◌, ◌==◌, ◌≡◌, refl, ◌∙◌, Bool-cases, inl, inr,
  Option-cases, some, All-get_elem?, All-set, List, [], ◌∷◌, length, length-set, get_elem?, set,
  arith,
}
use platform_sdk.Boost.Context.{ReturnCode}
use platform_sdk.Core.Error.{Error}
use platform_sdk.Core.Outcome.{Outcome, value, error}
use platform_sdk.Util.CheapRuler.{Reals}
use platform_sdk.Util.ScenarioSimulator.{Participant}
use platform_sdk.Util.ScenarioSimulator.Reports.{CanFly}
use platform_sdk.Util.ScenarioSimulator.Runner.{Runner}
use platform_sdk.Cmds.Scenario.{
  Call, authenticate_with_password, authenticate_anonymously, get_status_by_polygon,
  create_flight_by_polygon, monitor_traffic, start_flight_communications, schedule_in,
  end_flight_communications, end_flight, Answer, Command, stop, collect_key_for, take_at,
}
use platform_sdk.Cmds.Scenario.Steps.{handle_start_flight_comms_result_for, call_back, step, run}
use platform_sdk.Cmds.Scenario.Invariant.{
  stage, HasFlight, keyed, total, Served, IsHonest, Inv, Inv-settled, stop-Inv, take-Inv,
}
use platform_sdk.Cmds.Scenario.Collecting.{Grows, CanFly-Grows, total-set, set-Inv}
use platform_sdk.Cmds.Scenario.Callbacks.{some_of}
use platform_sdk.Cmds.Scenario.Running.{
  Goes, total-le-length, start_simulation-Starts, handle_authenticated_result_for-Goes,
  handle_create_flight_result_for-Goes, handle_traffic_monitoring_result_for-Goes,
  handle_end_flight_comms-Goes, handle_end_flight-Goes, request_end_flight_comms_for-Goes,
}

module _ {D : Type 0} ⦃r : Reals D⦄ where
  module _ (i n : ℕ) (s : Command D) {p : Participant D} (goes : s.context.io_stopped ≡ false)
      (small : n < 4294967296) (h : Inv i 1 n s) (e : get_elem? s.participants i ≡ some p)
      (flies : HasFlight p) where
    -- The participant has no key yet.
    keyless : keyed p ≡ 0
    keyless = ground (arith, h.once i)

    handle_start_flight_comms_result_for-Goes :
        (now : ℕ) (o : Outcome String (Error D))
        → Goes i n (handle_start_flight_comms_result_for now i o s)
    unfolding handle_start_flight_comms_result_for collect_key_for
    handle_start_flight_comms_result_for-Goes now (error x) =
        let (f, f_lem) = some_of p.flight flies.1 in
        (stop ReturnCode.error s, ground arith, stop-Inv i 1 n ReturnCode.error s goes h)
    handle_start_flight_comms_result_for-Goes now (value key) =
        let p' : Participant D = record p { encryption_key = some key } in
        let ps' = set s.participants i p' in
        let g : Grows p p' = record { area = refl; authenticated = λ a. a; flown = λ f. f } in
        let honest : IsHonest p' = λ _. flies in
        let more : total ps' ≡ total s.participants + 1 =
          omega (arith, total-set s.participants i p' e, keyless) in
        let bounded : total ps' ≤ n =
          omega (arith, total-le-length ps', length-set s.participants i p', h.len) in
        let counter : (s.key_counter + 1) % 4294967296 ≡ total ps' =
          omega (arith, more, bounded, small, h.counts) in
        let s' : Command D = record s {
          participants = ps';
          key_counter = (s.key_counter + 1) % 4294967296;
        } in
        elim (Bool-cases (length s.participants == (s.key_counter + 1) % 4294967296)) [
          | inl complete ↦
              let all : total ps' ≡ length ps' = ground (arith, length-set s.participants i p') in
              let idle : s.runner.running ≡ false =
                ground (arith, h.starts, h.len, length-set s.participants i p') in
              let (simulator, starts, prepared) =
                start_simulation-Starts now s'
                  (All-set CanFly s.participants i p' h.fly
                    (CanFly-Grows g (All-get_elem? CanFly s.participants i e h.fly)))
                  (All-set IsHonest s.participants i p' h.honest honest) all idle
                  (h.joins ∙ idle) in
              let runner : Runner D = record {
                running = true;
                joinable = true;
                simulator = some simulator;
              } in
              (
                record s' { runner = runner },
                rw (e, complete) starts,
                set-Inv i 1 0 n p' s'.key_counter runner s h e g honest (omega (arith, keyless))
                    (omega (arith, keyless, more, counter, h.counts)) (ground (arith, h.len))
                    (refl {a = true}) prepared (refl {a = true}),
              )
          | inr missing ↦ (
            s',
            rw (e, missing) refl,
            set-Inv i 1 0 n p' s'.key_counter s.runner s h e g honest (omega (arith, keyless))
                (omega (arith, keyless, more, counter, h.counts)) (ground (arith, h.starts, h.len))
                h.joins h.simulated h.made,
          )
        ]

  -- The callback of any pending call.
  call_back-Goes :
      (i n : ℕ) (c : Call D) (a : Answer D) (s : Command D)
      → s.context.io_stopped ≡ false
      → n < 4294967296
      → Inv i (stage c) n s
      → Served s.participants (i, c)
      → Goes i n (call_back i c a s)
  unfolding call_back
  call_back-Goes i n (authenticate_with_password _) a s goes small h (p, e, _) =
      handle_authenticated_result_for-Goes i n s goes h e a.now a.authentication
  call_back-Goes i n (authenticate_anonymously _) a s goes small h (p, e, _) =
      handle_authenticated_result_for-Goes i n s goes h e a.now a.authentication
  call_back-Goes i n (get_status_by_polygon _) a s goes small h (p, e, _) = (s, refl, h)
  call_back-Goes i n (create_flight_by_polygon _) a s goes small h (p, e, known) =
      handle_create_flight_result_for-Goes i n s goes h e known a.flight
  call_back-Goes i n (monitor_traffic _ _) a s goes small h (p, e, flies) =
      handle_traffic_monitoring_result_for-Goes i n s goes h e flies a.monitor
  call_back-Goes i n (start_flight_communications _ _) a s goes small h (p, e, flies) =
      handle_start_flight_comms_result_for-Goes i n s goes small h e flies a.now a.key
  call_back-Goes i n (schedule_in _) a s goes small h (p, e, flies) =
      request_end_flight_comms_for-Goes i n s goes h e flies
  call_back-Goes i n (end_flight_communications _ _) a s goes small h (p, e, flies) =
      handle_end_flight_comms-Goes i n s goes h e flies a.ended
  call_back-Goes i n (end_flight _ _) a s goes small h (p, e, flies) =
      handle_end_flight-Goes i n s goes h e flies a.ended

  step-Goes :
      (n m : ℕ) (a : Answer D) (s : Command D)
      → n < 4294967296
      → Inv 0 0 n s
      → Goes 0 n (step m a s)
  unfolding step
  step-Goes n m a s small h = elim (Bool-cases s.context.io_stopped) [
    | inl over ↦ (s, ground arith, h)
    | inr goes ↦ elim (Option-cases (take_at m s.pending)) [
      | inl nothing ↦ (s, ground arith, h)
      | inr ((i, c, rest), taken) ↦
          let (h', served) = take-Inv m 0 n i c rest s h taken in
          let (s', e, h'') =
            call_back-Goes i n c a (record s { pending = rest }) goes small h' served in
          (s', simp (goes, taken) e, Inv-settled i 0 n s' h'')
    ]
  ]

  pub run-Goes :
      (n : ℕ) (es : List (ℕ × Answer D)) (s : Command D)
      → n < 4294967296
      → Inv 0 0 n s
      → Goes 0 n (run es s)
  unfolding run
  run-Goes n [] s small h = (s, refl, h)
  run-Goes n ((m, a) ∷ es) s small h =
      let (s', e, h') = step-Goes n m a s small h in
      let (s'', e', h'') = run-Goes n es s' small h' in (s'', rw e e', h'')
