-- ===== src/Cmds/Scenario/Invariant.antt =====
-- What holds of the command between two callbacks, and of the parts of a callback.
use platform_sdk.Base.{
  ℕ, zero, suc, true, false, ◌&&◌, ltb, ◌+◌, ◌<◌, ◌≤◌, ◌==◌, ◌≡◌, Option, Option-cases, inl, inr,
  none, some, is_some, List, [], ◌∷◌, ◌++◌, map, All, All-append_one, length, get_elem?,
  if◌then◌else◌, arith,
}
use platform_sdk.Boost.Context.{running, ReturnCode}
use platform_sdk.Boost.Context
use platform_sdk.Util.CheapRuler.{Reals}
use platform_sdk.Util.ScenarioSimulator.{Participant, ScenarioSimulator}
use platform_sdk.Util.ScenarioSimulator.Reports.{CanFly}
use platform_sdk.Cmds.Scenario.{
  Call, authenticate_with_password, authenticate_anonymously, get_status_by_polygon,
  create_flight_by_polygon, monitor_traffic, start_flight_communications, schedule_in,
  end_flight_communications, end_flight, Command, send, stop, take_at,
}

module _ {D : Type 0} where
  -- The calls of the chain that ends with the key of a participant.
  abbrev pub stage : Call D → ℕ
  stage (authenticate_with_password _) = 1
  stage (authenticate_anonymously _) = 1
  stage (get_status_by_polygon _) = 0
  stage (create_flight_by_polygon _) = 1
  stage (monitor_traffic _ _) = 0
  stage (start_flight_communications _ _) = 1
  stage (schedule_in _) = 0
  stage (end_flight_communications _ _) = 0
  stage (end_flight _ _) = 0

  abbrev pub HasFlight : Participant D → Type 0
  HasFlight p = (is_some p.authentication ≡ true) × (is_some p.flight ≡ true)

  -- What the callback of a call reads of its participant.
  abbrev pub Needs : Call D → Participant D → Type 0
  Needs (authenticate_with_password _) p = Unit
  Needs (authenticate_anonymously _) p = Unit
  Needs (get_status_by_polygon _) p = Unit
  Needs (create_flight_by_polygon _) p = is_some p.authentication ≡ true
  Needs (monitor_traffic _ _) p = HasFlight p
  Needs (start_flight_communications _ _) p = HasFlight p
  Needs (schedule_in _) p = HasFlight p
  Needs (end_flight_communications _ _) p = HasFlight p
  Needs (end_flight _ _) p = HasFlight p

  abbrev pub Served : List (Participant D) → ℕ × Call D → Type 0
  Served ps (i, c) = (p : Participant D) × (get_elem? ps i ≡ some p) × Needs c p

  -- How many calls of the chain are pending for a participant.
  abbrev pub open_at : ℕ → List (ℕ × Call D) → ℕ
  open_at j [] = 0
  open_at j ((i, c) ∷ rest) = (if i == j then stage c else 0) + open_at j rest

  abbrev pub keyed : Participant D → ℕ
  keyed p = elim p.encryption_key [ none ↦ 0 | some k ↦ 1 ]

  abbrev pub keyed_at : ℕ → List (Participant D) → ℕ
  keyed_at j ps = elim (get_elem? ps j) [ none ↦ 0 | some p ↦ keyed p ]

  abbrev pub total : List (Participant D) → ℕ
  total [] = 0
  total (p ∷ ps) = keyed p + total ps

  -- A participant with a key has an authentication and a flight.
  abbrev pub IsHonest : Participant D → Type 0
  IsHonest p = keyed p ≡ 1 → HasFlight p

  -- A participant that the simulation can submit telemetry for.
  abbrev pub IsPrepared : Participant D → Type 0
  IsPrepared p = HasFlight p × (is_some p.encryption_key ≡ true)

  abbrev pub Simulated : Option (ScenarioSimulator D) → Type 0
  Simulated none = Unit
  Simulated (some s) = All IsPrepared (map (λ e. e.0) s.state)

  -- Between two callbacks `k` is 0. Within a callback of a call for the participant `i`, `k` says
  -- whether its chain has still to go on.
  pub record Inv (i k n : ℕ) (s : Command D) ⦃r : Reals D⦄ : Type 0 where
    pub len : length s.participants ≡ n
    pub fly : All CanFly s.participants
    pub lasts : is_some s.duration ≡ true
    pub calls : All (Served s.participants) s.pending
    pub once :
        (j : ℕ) → open_at j s.pending + keyed_at j s.participants + (if i == j then k else 0) ≤ 1
    pub live :
        s.context.io_stopped ≡ false
        → (j : ℕ) → j < n
        → open_at j s.pending + keyed_at j s.participants + (if i == j then k else 0) ≡ 1
    pub serves : s.context.io_stopped ≡ false → s.context.state ≡ running
    pub counts : s.key_counter ≡ total s.participants
    pub honest : All IsHonest s.participants
    pub starts : s.runner.running ≡ (ltb 0 n && total s.participants == n)
    pub joins : s.runner.joinable ≡ s.runner.running
    pub simulated : Simulated s.runner.simulator
    pub made : is_some s.runner.simulator ≡ s.runner.running

  pub open_at-append :
      (j i : ℕ) (c : Call D) (l : List (ℕ × Call D))
      → open_at j (l ++ (i, c) ∷ []) ≡ open_at j l + (if i == j then stage c else 0)
  open_at-append j i c [] = omega arith
  open_at-append j i c ((a, b) ∷ l) = omega (arith, open_at-append j i c l)

module _ {D : Type 0} ⦃r : Reals D⦄ where
  -- A call for the participant at hand.
  pub send-Inv :
      (i k k' n : ℕ) (c : Call D) (s : Command D)
      → Inv i k n s
      → k ≡ k' + stage c
      → Served s.participants (i, c)
      → Inv i k' n (send i c s)
  send-Inv i k k' n c s h e served = record {
    len = h.len;
    fly = h.fly;
    lasts = h.lasts;
    calls = All-append_one (Served s.participants) s.pending (i, c) h.calls served;
    once = λ j. ground (arith, h.once j, open_at-append j i c s.pending);
    live = λ goes j lt. ground (arith, h.live goes j lt, open_at-append j i c s.pending);
    serves = h.serves;
    counts = h.counts;
    honest = h.honest;
    starts = h.starts;
    joins = h.joins;
    simulated = h.simulated;
    made = h.made;
  }

  -- Between two callbacks no participant is at hand.
  pub Inv-settled : (i j n : ℕ) (s : Command D) → Inv i 0 n s → Inv j 0 n s
  Inv-settled i j n s h = record {
    len = h.len;
    fly = h.fly;
    lasts = h.lasts;
    calls = h.calls;
    once = λ a. ground (arith, h.once a);
    live = λ goes a lt. ground (arith, h.live goes a lt);
    serves = h.serves;
    counts = h.counts;
    honest = h.honest;
    starts = h.starts;
    joins = h.joins;
    simulated = h.simulated;
    made = h.made;
  }

  open_at-take :
      (m : ℕ) (l : List (ℕ × Call D)) (i : ℕ) (c : Call D) (rest : List (ℕ × Call D))
      → take_at m l ≡ some (i, c, rest)
      → (j : ℕ) → open_at j l ≡ open_at j rest + (if i == j then stage c else 0)
  unfolding take_at
  open_at-take m [] i c rest h j = cc
  open_at-take zero ((a, b) ∷ l) i c rest h j = ground arith
  open_at-take (suc m) ((a, b) ∷ l) i c rest h j = elim (Option-cases (take_at m l)) [
    | inl e ↦ cc
    | inr ((i', c', rest'), e) ↦ ground (arith, open_at-take m l i' c' rest' e j)
  ]

  -- The taken call and the calls that stay.
  abbrev Taken : (ℕ × Call D → Type 0) → Option (ℕ × Call D × List (ℕ × Call D)) → Type 0
  Taken P none = Unit
  Taken P (some (i, c, rest)) = P (i, c) × All P rest

  All-take :
      (P : ℕ × Call D → Type 0) (m : ℕ) (l : List (ℕ × Call D)) → All P l → Taken P (take_at m l)
  unfolding take_at
  All-take P m [] ps = tt
  All-take P zero ((a, b) ∷ l) (p, ps) = (p, ps)
  All-take P (suc m) ((a, b) ∷ l) (p, ps) = elim (Option-cases (take_at m l)) [
    | inl e ↦ rw e tt
    | inr ((i, c, rest), e) ↦ let (q, qs) = rw e at (All-take P m l ps) in rw e (q, (p, qs))
  ]

  -- A callback begins.
  pub take-Inv :
      (m a n i : ℕ) (c : Call D) (rest : List (ℕ × Call D)) (s : Command D)
      → Inv a 0 n s
      → take_at m s.pending ≡ some (i, c, rest)
      → Inv i (stage c) n (record s { pending = rest }) × Served s.participants (i, c)
  take-Inv m a n i c rest s h e =
      let (served, calls) = rw e at (All-take (Served s.participants) m s.pending h.calls) in
      (
        record {
          len = h.len;
          fly = h.fly;
          lasts = h.lasts;
          calls = calls;
          once = λ j. ground (arith, h.once j, open_at-take m s.pending i c rest e j);
          live =
              λ goes j lt. ground (arith, h.live goes j lt, open_at-take m s.pending i c rest e j);
          serves = h.serves;
          counts = h.counts;
          honest = h.honest;
          starts = h.starts;
          joins = h.joins;
          simulated = h.simulated;
          made = h.made;
        },
        served,
      )

  -- After a failure, or once a flight has ended.
  pub stop-Inv :
      (i k n : ℕ) (rc : ReturnCode) (s : Command D)
      → s.context.io_stopped ≡ false
      → Inv i k n s
      → Inv i 0 n (stop rc s)
  unfolding stop Context.stop
  stop-Inv i k n rc s goes h =
      let halted : (Context.stop rc s.context).io_stopped ≡ true = ground (arith, h.serves goes) in
      record {
        len = h.len;
        fly = h.fly;
        lasts = h.lasts;
        calls = h.calls;
        once = λ j. ground (arith, h.once j);
        live = λ e. cc;
        serves = λ e. cc;
        counts = h.counts;
        honest = h.honest;
        starts = h.starts;
        joins = h.joins;
        simulated = h.simulated;
        made = h.made;
      }

  -- The subscriptions do not matter.
  pub subscribed-Inv :
      (i k n : ℕ) (ms : List ℕ) (s : Command D)
      → Inv i k n s
      → Inv i k n (record s { subscribed = ms })
  subscribed-Inv i k n ms s h = record {
    len = h.len;
    fly = h.fly;
    lasts = h.lasts;
    calls = h.calls;
    once = h.once;
    live = h.live;
    serves = h.serves;
    counts = h.counts;
    honest = h.honest;
    starts = h.starts;
    joins = h.joins;
    simulated = h.simulated;
    made = h.made;
  }
