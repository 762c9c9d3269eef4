-- ===== src/Util/ScenarioSimulator/Reports.antt =====
-- What the simulation of a scenario reports.
use mathlib.Core.List.{map-append}
use platform_sdk.Base.{
  ℕ, ◌<◌, ◌≡◌, refl, ap, All, ◌++◌, Option, none, some, ◌>>=◌, List, [], ◌∷◌, map, length,
}
use platform_sdk.Core.Geometry.{Polygon, details_for_polygon}
use platform_sdk.Util.CheapRuler.{Reals}
use platform_sdk.Util.TelemetrySimulator.{TelemetrySimulator}
use platform_sdk.Util.TelemetrySimulator
use platform_sdk.Util.TelemetrySimulator.Moves.{IsOn, enter-IsOn, update-IsOn, segment_after}
use platform_sdk.Util.ScenarioSimulator.{
  Participant, ScenarioSimulator, Report, simulators, create, update_all, update,
}

module _ {D : Type 0} ⦃r : Reals D⦄ where
  -- A polygon whose outer ring has two coordinates at least.
  pub record CanFly (p : Participant D) : Type 0 where
    pub area : Polygon D
    pub area_lem : details_for_polygon p.geometry ≡ some area
    pub two : 1 < length area.outer_ring.coordinates

  -- Each participant can fly, and its simulator is on a segment of its ring.
  abbrev pub Flying : List (Participant D × TelemetrySimulator D) → Type 0
  Flying [] = Unit
  Flying ((p, s) ∷ rest) =
      ((h : CanFly p) × (k : ℕ) × IsOn h.area.outer_ring.coordinates k s) × Flying rest

  simulators_lem :
      (time : ℕ) (ps : List (Participant D))
      → All CanFly ps
      → (state : List (Participant D × TelemetrySimulator D)) × (simulators time ps ≡ some state)
        × (map (λ e. e.0) state ≡ ps)
        × Flying state
  unfolding simulators TelemetrySimulator.create
  simulators_lem time [] h = ([], refl, refl, tt)
  simulators_lem time (p ∷ ps) (h, hs) =
      let (s, e, on, _, _) = enter-IsOn h.area.outer_ring.coordinates 0 time time h.two in
      let (state, rest, same, flying) = simulators_lem time ps hs in
      ((p, s) ∷ state, rw (h.area_lem, e, rest), rw same, ((h, 0, on), flying))

  -- The time and the participant of a report.
  abbrev pub told : Report D → ℕ × Participant D
  told x = (x.now, x.participant)

  -- One round: it goes through, and tells of each participant once.
  abbrev Updates :
      ℕ
      → List (Participant D × TelemetrySimulator D)
      → Option (List (Participant D × TelemetrySimulator D) × List (Report D))
      → Type 0
  Updates now state result =
      (state' : List (Participant D × TelemetrySimulator D)) × (reports : List (Report D)) × (result
        ≡ some (state', reports))
      × (map (λ e. e.0) state' ≡ map (λ e. e.0) state)
      × (map told reports ≡ map (λ q. (now, q)) (map (λ e. e.0) state))
      × Flying state'

  pub create_lem :
      (time : ℕ) (ps : List (Participant D))
      → All CanFly ps
      → (s : ScenarioSimulator D) × (create time ps ≡ some s)
        × (map (λ e. e.0) s.state ≡ ps)
        × Flying s.state
  unfolding create
  create_lem time ps h =
      let (state, e, same, flying) = simulators_lem time ps h in
      (record { state = state; last_update = none }, rw e refl, same, flying)

  update_all_lem :
      (now : ℕ) (state : List (Participant D × TelemetrySimulator D))
      → Flying state
      → Updates now state (update_all now state)
  unfolding update_all
  update_all_lem now [] h = ([], [], refl, refl, refl, tt)
  update_all_lem now ((p, s) ∷ rest) ((h, k, on), hs) =
      let (s', e, on', _) = update-IsOn h.area.outer_ring.coordinates k now now s on in
      let (state, reports, goes, same, round, flying) = update_all_lem now rest hs in
      (
        (p, TelemetrySimulator.advance now s') ∷ state,
        (record {
          now = now;
          participant = p;
          coordinate = (TelemetrySimulator.advance now s').current_data;
        })
            ∷ reports,
        rw (e, goes),
        ap (◌∷◌ p) same,
        ap (◌∷◌ (now, p)) round,
        ((h, segment_after on, on'), flying),
      )

  -- What the thread of a runner does: one update after another.
  unfoldable pub updates : List ℕ → ScenarioSimulator D → Option (List (Report D))
  updates [] s = some []
  updates (now ∷ times) s = do
    (s', reports) ← update now s
    later ← updates times s'
    some (reports ++ later)

  -- Every participant once at each time, in the order of the scenario.
  abbrev pub rounds : List ℕ → List (Participant D) → List (ℕ × Participant D)
  rounds [] ps = []
  rounds (now ∷ times) ps = map (λ p. (now, p)) ps ++ rounds times ps

  -- The updates go through, and tell of `ps` in rounds.
  abbrev Tells : List ℕ → List (Participant D) → Option (List (Report D)) → Type 0
  Tells times ps result =
      (reports : List (Report D)) × (result ≡ some reports) × (map told reports ≡ rounds times ps)

  updates_lem :
      (times : List ℕ) (s : ScenarioSimulator D)
      → Flying s.state
      → Tells times (map (λ e. e.0) s.state) (updates times s)
  unfolding updates update
  updates_lem [] s h = ([], refl, refl)
  updates_lem (now ∷ times) s h =
      let (state, reports, goes, same, round, flying) = update_all_lem now s.state h in
      let (later, e, tells) =
        updates_lem times (record { state = state; last_update = some now }) flying in
      (reports ++ later, rw (goes, e), simp (map-append told reports later, round, tells, same))

  -- A scenario whose participants all have polygons with two coordinates at least: the simulation is
  -- made, no update reads past the end of a ring, however often and at whatever times, and the
  -- updates report every participant once at each time, in the order of the scenario.
  pub create-updates :
      (made : ℕ) (ps : List (Participant D)) (times : List ℕ)
      → All CanFly ps
      → (s : ScenarioSimulator D) × (create made ps ≡ some s)
        × (reports : List (Report D)) × (updates times s ≡ some reports)
        × (map told reports ≡ rounds times ps)
  create-updates made ps times h =
      let (s, e, same, flying) = create_lem made ps h in
      let (reports, goes, tells) = updates_lem times s flying in
      (s, e, reports, goes, rw same at tells)
