-- ===== src/Monitor/VehicleMonitor/Phases.antt =====
-- When a submitter is active, seen from the heartbeats of its vehicle.
use mathlib.Core.Logic.{if_pos, if_neg}
use mathlib.Core.Path.{ap₂}
use platform_sdk.Base.{
  ℕ, Bool, true, false, ◌≡◌, ◌≢◌, refl, some, List, [], ◌∷◌, ◌++◌, map, All, arith, subst, sym, ap,
  ◌∙◌,
}
use platform_sdk.Mavlink.Message.{
  MavState, uninit, boot, calibrating, standby, active, critical, emergency, poweroff, other,
}
use platform_sdk.Mavlink.Vehicle.{
  Vehicle, on_system_status_changed, handle_msg_heartbeat, MavState-discrete,
}
use platform_sdk.Monitor.Submitter.Events.{Event, activates, deactivates}
use platform_sdk.Monitor.VehicleMonitor.{from_ground, from_air, status_changed, react, react_all}

abbrev pub is_air : MavState → Bool
is_air active = true
is_air critical = true
is_air emergency = true
is_air _ = false

-- The phase of a submitter after a call.
abbrev pub after : {D : Type 0} → Bool → Event D → Bool
after b activates = true
after b deactivates = false
after b _ = b

abbrev pub phase : {D : Type 0} → Bool → List (Event D) → Bool
phase b [] = b
phase b (e ∷ es) = phase (after b e) es

-- A change that the code provides for: between states on the ground, from there to `active`,
-- between states in flight, and from there to the ground.
abbrev pub regular : MavState → MavState → Bool
regular old poweroff = false
regular old (other n) = false
regular poweroff new = false
regular (other n) new = false
regular active new = true
regular critical new = true
regular emergency new = true
regular old critical = false
regular old emergency = false
regular old new = true

abbrev pub Regular : MavState → List MavState → Type 0
Regular s [] = Unit {0}
Regular s (h ∷ hs) = (regular s h ≡ true) × Regular h hs

abbrev pub last : MavState → List MavState → MavState
last s [] = s
last s (h ∷ hs) = last h hs

-- One call of the monitor keeps the phase in step with the vehicle.
status_changed-phase :
    (D : Type 0) (s h : MavState)
    → regular s h ≡ true
    → phase {D = D} (is_air s) (react_all (on_system_status_changed (some s) h ∷ [])) ≡ is_air h
unfolding react_all react status_changed from_ground from_air
status_changed-phase D s h r = ground arith

abbrev pub is_grounded : MavState → Bool
is_grounded uninit = true
is_grounded boot = true
is_grounded calibrating = true
is_grounded standby = true
is_grounded _ = false

abbrev pub is_quiet : MavState → Bool
is_quiet poweroff = true
is_quiet s = is_grounded s

grounded_quiet : (s : MavState) → is_grounded s ≡ true → is_quiet s ≡ true
grounded_quiet s h = ground arith

quiet_change :
    (D : Type 0) (s g : MavState)
    → is_quiet s ≡ true
    → is_grounded g ≡ true
    → react_all {D = D} (on_system_status_changed (some s) g ∷ []) ≡ []
unfolding react_all react status_changed from_ground
quiet_change D s g q h = ground arith

switched_off :
    (D : Type 0) (s : MavState)
    → is_air s ≡ true
    → react_all {D = D} (on_system_status_changed (some s) poweroff ∷ []) ≡ []
unfolding react_all react status_changed from_air
switched_off D s h = ground arith

module _ {D : Type 0} where
  -- The calls of the submitter that a run of heartbeats leads to, for the vehicle's only monitor.
  unfoldable pub watch : List MavState → Vehicle D → List (Event D)
  watch [] v = []
  watch (h ∷ hs) v =
      let (v', calls) = handle_msg_heartbeat h v in react_all (map (λ c. c.1) calls) ++ watch hs v'

  phase-append : (b : Bool) (xs ys : List (Event D)) → phase b (xs ++ ys) ≡ phase (phase b xs) ys
  phase-append b [] ys = refl
  phase-append b (x ∷ xs) ys = phase-append (after b x) xs ys

  heartbeat_same :
      (h : MavState) (v : Vehicle D) → v.system_status ≡ h → handle_msg_heartbeat h v ≡ (v, [])
  unfolding handle_msg_heartbeat
  heartbeat_same h v e = if_pos (MavState-discrete v.system_status h) e _ _

  heartbeat_change :
      (a : ℕ) (h : MavState) (v : Vehicle D)
      → v.monitors ≡ a ∷ []
      → v.system_status ≢ h
      → handle_msg_heartbeat h v ≡ (
        record v { system_status = h },
        (a, on_system_status_changed (some v.system_status) h) ∷ [],
      )
  unfolding handle_msg_heartbeat
  heartbeat_change a h v m e = if_neg (MavState-discrete v.system_status h) e _ _ ∙ rw m

  -- For a vehicle with one monitor, after any heartbeats whose changes of status are regular, the
  -- submitter has been told to be active exactly when the vehicle is in flight.
  pub watch-phase :
      (a : ℕ) (hs : List MavState) (v : Vehicle D)
      → v.monitors ≡ a ∷ []
      → Regular v.system_status hs
      → phase (is_air v.system_status) (watch hs v) ≡ is_air (last v.system_status hs)
  unfolding watch react_all
  watch-phase a [] v m r = refl
  watch-phase a (h ∷ hs) v m r = elim (MavState-discrete v.system_status h) [
    | yes same ↦ rw (heartbeat_same h v same) (
        subst (λ s. phase (is_air v.system_status) (watch hs v) ≡ is_air (last s hs)) same
          (watch-phase a hs v m (subst (λ s. Regular s hs) (sym same) r.1)))
    | no change ↦
        let called = on_system_status_changed (some v.system_status) h ∷ [] in
        let v' = record v { system_status = h } in
        rw (heartbeat_change a h v m change) (
          phase-append (is_air v.system_status) (react_all called) (watch hs v')
          ∙ ap (λ b. phase b (watch hs v')) (status_changed-phase D v.system_status h r.0)
          ∙ watch-phase a hs v' m r.1)
  ]

  watch-quiet :
      (a : ℕ) (gs : List MavState) (v : Vehicle D)
      → v.monitors ≡ a ∷ []
      → is_quiet v.system_status ≡ true
      → All (λ g. is_grounded g ≡ true) gs
      → watch gs v ≡ []
  unfolding watch react_all
  watch-quiet a [] v m q to = refl
  watch-quiet a (g ∷ gs) v m q to = elim (MavState-discrete v.system_status g) [
    | yes same ↦ rw (heartbeat_same g v same) (watch-quiet a gs v m q to.1)
    | no change ↦
        let v' = record v { system_status = g } in
        rw (heartbeat_change a g v m change) (
          ap₂ ◌++◌ (quiet_change D v.system_status g q to.0)
            (watch-quiet a gs v' m (grounded_quiet g to.0) to.1))
  ]

  -- A vehicle that is switched off in flight and comes back on the ground, through any states
  -- there, never has its submitter deactivated.
  pub poweroff-watch :
      (a : ℕ) (gs : List MavState) (v : Vehicle D)
      → v.monitors ≡ a ∷ []
      → is_air v.system_status ≡ true
      → All (λ g. is_grounded g ≡ true) gs
      → watch (poweroff ∷ gs) v ≡ []
  unfolding watch react_all
  poweroff-watch a gs v m air to =
      let v' = record v { system_status = poweroff } in
      rw (heartbeat_change a poweroff v m (λ e. cc (ap is_air e)))
        (ap₂ ◌++◌ (switched_off D v.system_status air) (watch-quiet a gs v' m refl to))
