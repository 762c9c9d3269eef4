-- ===== src/Cmds/Scenario/Callbacks.antt =====
-- Each request and each callback of the scenario returns and keeps the invariant.
use platform_sdk.Base.{
  ℕ, suc, String, true, ◌+◌, ◌≡◌, refl, Option, none, some, All-get_elem?, is_some, get_elem?,
  get_elem?-of_lt, get_elem?-set, set, arith,
}
use platform_sdk.Core.Flight.{Flight}
use platform_sdk.Core.Geometry.{Coordinate}
use platform_sdk.Util.CheapRuler.{Reals}
use platform_sdk.Util.ScenarioSimulator.{Participant}
use platform_sdk.Util.ScenarioSimulator.Reports.{CanFly}
use platform_sdk.Cmds.Scenario.{
  Call, FlightParameters, create_flight_by_polygon, monitor_traffic, start_flight_communications,
  schedule_in, end_flight_communications, end_flight, Command, send, collect_authentication_for,
  collect_flight_id_for, collect_traffic_monitor_for, first_corner, request_flight_status_for,
  request_create_flight_for, request_traffic_monitoring_for, request_start_flight_comms_for,
  request_end_flight_comms_for, request_end_flight_for, schedule_end_for,
}
use platform_sdk.Cmds.Scenario.Invariant.{stage, Needs, HasFlight, Inv, send-Inv}
use platform_sdk.Cmds.Scenario.Collecting.{Grows, grow-Inv}

pub some_of {ℓ} : {A : Type ℓ} (o : Option A) → is_some o ≡ true → (a : A) × (o ≡ some a)
some_of none h = cc
some_of (some a) h = (a, refl)

module _ {D : Type 0} ⦃r : Reals D⦄ where
  -- A part of a callback for the participant `i`, which is `p` after it.
  abbrev pub Next : ℕ → ℕ → ℕ → Participant D → Option (Command D) → Type 0
  Next i k n p result =
      (s' : Command D) × (result ≡ some s') × Inv i k n s' × (get_elem? s'.participants i ≡ some p)

  corner_of : (p : Participant D) → CanFly p → (c : Coordinate D) × (first_corner p ≡ some c)
  unfolding first_corner
  corner_of p h =
      let (c, e) = get_elem?-of_lt h.area.outer_ring.coordinates 0 (omega (arith, h.two)) in
      (c, rw h.area_lem e)

  -- The same participant with a value that has grown.
  grown :
      (i k n : ℕ) {p : Participant D} (p' : Participant D) (s : Command D)
      → Inv i k n s
      → get_elem? s.participants i ≡ some p
      → Grows p p'
      → p'.encryption_key ≡ p.encryption_key
      → Next i k n p' (some (record s { participants = set s.participants i p' }))
  grown i k n p' s h e g same = (
    record s { participants = set s.participants i p' },
    refl,
    grow-Inv i k n p' s h e g same,
    ground (arith, get_elem?-set s.participants i i p' e),
  )

  module _ (i k n : ℕ) (s : Command D) {p : Participant D} (h : Inv i k n s)
      (e : get_elem? s.participants i ≡ some p) where
    pub collect_authentication_for-Next :
        (a : String)
        → Next i k n (record p { authentication = some a }) (collect_authentication_for i a s)
    unfolding collect_authentication_for
    collect_authentication_for-Next a =
        let p' : Participant D = record p { authentication = some a } in
        rw e (
          grown i k n p' s h e (record { area = refl; authenticated = λ _. refl; flown = λ f. f })
            refl)

    pub collect_flight_id_for-Next :
        (f : Flight D) → Next i k n (record p { flight = some f }) (collect_flight_id_for i f s)
    unfolding collect_flight_id_for
    collect_flight_id_for-Next f =
        let p' : Participant D = record p { flight = some f } in
        rw e (
          grown i k n p' s h e (record { area = refl; authenticated = λ a. a; flown = λ _. refl })
            refl)

    pub collect_traffic_monitor_for-Next :
        (m : ℕ) → Next i k n (record p { monitor = some m }) (collect_traffic_monitor_for i m s)
    unfolding collect_traffic_monitor_for
    collect_traffic_monitor_for-Next m =
        let p' : Participant D = record p { monitor = some m } in
        rw e (
          grown i k n p' s h e (record { area = refl; authenticated = λ a. a; flown = λ f. f })
            refl)

    pub sent :
        (k' : ℕ) (c : Call D) → k ≡ k' + stage c → Needs c p → Next i k' n p (some (send i c s))
    sent k' c chain needs = (send i c s, refl, send-Inv i k k' n c s h chain (p, e, needs), e)

    pub request_flight_status_for-Next :
        (now : ℕ) → Next i k n p (request_flight_status_for now i s)
    unfolding request_flight_status_for
    request_flight_status_for-Next now =
        let (c, corner) = corner_of p (All-get_elem? CanFly s.participants i e h.fly) in
        rw (e, corner) (sent k _ (omega arith) tt)

    pub request_create_flight_for-Next :
        (now k' : ℕ)
        → k ≡ suc k'
        → is_some p.authentication ≡ true
        → Next i k' n p (request_create_flight_for now i s)
    unfolding request_create_flight_for
    request_create_flight_for-Next now k' chain known =
        let (c, corner) = corner_of p (All-get_elem? CanFly s.participants i e h.fly) in
        let (a, a_lem) = some_of p.authentication known in
        let (d, d_lem) = some_of s.duration h.lasts in
        let parameters : FlightParameters D = record {
          authorization = a;
          start_time = now;
          end_time = now + d;
          aircraft_id = p.aircraft;
          latitude = c.latitude;
          longitude = c.longitude;
          geometry = p.geometry;
        } in
        let returns : request_create_flight_for now i s
            ≡ some (send i (create_flight_by_polygon parameters) s) =
          ground arith in
        rw returns (sent k' (create_flight_by_polygon parameters) (omega (arith, chain)) known)

    -- The parameters of a call are the authentication and the flight of the participant.
    module _ (flies : HasFlight p) where
      abbrev KnownFlight : Type 0
      KnownFlight =
          (a : String) × (p.authentication ≡ some a) × (f : Flight D) × (p.flight ≡ some f)

      known : KnownFlight
      known =
          let (a, a_lem) = some_of p.authentication flies.0 in
          let (f, f_lem) = some_of p.flight flies.1 in (a, a_lem, f, f_lem)

      pub request_traffic_monitoring_for-Next : Next i k n p (request_traffic_monitoring_for i s)
      unfolding request_traffic_monitoring_for
      request_traffic_monitoring_for-Next =
          let (a, a_lem, f, f_lem) = known in
          rw e (simp (f_lem, a_lem) (sent k (monitor_traffic f.id a) (omega arith) flies))

      pub request_start_flight_comms_for-Next :
          (k' : ℕ) → k ≡ suc k' → Next i k' n p (request_start_flight_comms_for i s)
      unfolding request_start_flight_comms_for
      request_start_flight_comms_for-Next k' chain =
          let (a, a_lem, f, f_lem) = known in
          rw e (
            simp (a_lem, f_lem)
              (sent k' (start_flight_communications a f.id) (omega (arith, chain)) flies))

      pub request_end_flight_comms_for-Next : Next i k n p (request_end_flight_comms_for i s)
      unfolding request_end_flight_comms_for
      request_end_flight_comms_for-Next =
          let (a, a_lem, f, f_lem) = known in
          rw e (simp (a_lem, f_lem) (sent k (end_flight_communications a f.id) (omega arith) flies))

      pub request_end_flight_for-Next : Next i k n p (request_end_flight_for i s)
      unfolding request_end_flight_for
      request_end_flight_for-Next =
          let (a, a_lem, f, f_lem) = known in
          rw e (simp (a_lem, f_lem) (sent k (end_flight a f.id) (omega arith) flies))

      pub schedule_end_for-Next : Next i k n p (schedule_end_for i s)
      unfolding schedule_end_for
      schedule_end_for-Next =
          let (d, d_lem) = some_of s.duration h.lasts in
          let returns : schedule_end_for i s ≡ some (send i (schedule_in d) s) = ground arith in
          rw returns (sent k (schedule_in d) (omega arith) flies)
