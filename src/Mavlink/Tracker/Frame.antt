-- ===== src/Mavlink/Tracker/Frame.antt =====
-- One message to a tracker: it reaches its vehicle and no other.
use platform_sdk.Base.{
  ℕ, ◌==◌, ◌≡◌, ◌≢◌, refl, Option, none, some, List, [], ◌∷◌, map, if◌then◌else◌, arith, All,
  is_some, ◌∙◌,
}
use platform_sdk.Mavlink.Message.{MessageId, Mavlink}
use platform_sdk.Mavlink.Vehicle.{Vehicle}
use platform_sdk.Mavlink.Vehicle
use platform_sdk.Mavlink.Tracker.{
  VehicleTracker, TrackerUpdate, find, put, register_all, welcome, update_entry, update_from,
  update,
}

module _ {D : Type 0} where
  -- Each vehicle is filed under its own system id.
  abbrev pub IsFiled : List (ℕ × Vehicle D) → Type 0
  IsFiled vs = All (λ (e : ℕ × Vehicle D). e.1.system_id ≡ e.0) vs

  find-put :
      (j k : ℕ) (v : Vehicle D) (vs : List (ℕ × Vehicle D))
      → find j (put k v vs) ≡ (if k == j then some v else find j vs)
  unfolding find put
  find-put j k v [] = refl
  find-put j k v ((i, w) ∷ vs) = ground (arith, find-put j k v vs)

  find-IsFiled :
      (k : ℕ) (v : Vehicle D) (vs : List (ℕ × Vehicle D))
      → IsFiled vs
      → find k vs ≡ some v
      → v.system_id ≡ k
  unfolding find
  find-IsFiled k v [] f e = cc
  find-IsFiled k v ((i, w) ∷ vs) f e = ground (arith, find-IsFiled k v vs f.1)

  put-IsFiled :
      (k : ℕ) (v : Vehicle D) (vs : List (ℕ × Vehicle D))
      → v.system_id ≡ k
      → IsFiled vs
      → IsFiled (put k v vs)
  unfolding put
  put-IsFiled k v [] e f = ground arith
  put-IsFiled k v ((i, w) ∷ vs) e f = ground (arith, put-IsFiled k v vs e f.1)

  register_all-system_id :
      (ms : List ℕ) (v : Vehicle D) → (register_all ms v).system_id ≡ v.system_id
  unfolding register_all Vehicle.register_monitor
  register_all-system_id [] v = refl
  register_all-system_id (a ∷ rest) v = register_all-system_id rest (Vehicle.register_monitor a v)

  welcome-system_id :
      (registers : ℕ → ℕ → List ℕ) (ms : List ℕ) (v : Vehicle D)
      → (welcome registers ms v).system_id ≡ v.system_id
  unfolding welcome
  welcome-system_id registers [] v = refl
  welcome-system_id registers (m ∷ ms) v =
      welcome-system_id registers ms (register_all (registers m v.system_id) v)
      ∙ register_all-system_id (registers m v.system_id) v

module _ {M D : Type 0} ⦃mav : Mavlink M D⦄ (registers : ℕ → ℕ → List ℕ) where
  open mav use {sysid, msgid}

  dispatch-system_id :
      (i : MessageId) (msg : M) (v : Vehicle D)
      → (Vehicle.dispatch i msg v).0.system_id ≡ v.system_id
  unfolding Vehicle.dispatch Vehicle.handle_msg_heartbeat Vehicle.handle_msg_global_position_int
      Vehicle.handle_msg_mission
  dispatch-system_id i msg v = ground arith

  -- The vehicle that a message is handed to: the one on file, or else a new one.
  abbrev pub sender : M → VehicleTracker D → Option (Vehicle D) → Vehicle D
  sender msg t (some v) = v
  sender msg t none = welcome registers t.monitors (Vehicle.create (sysid msg))

  -- The vehicles stay filed, the sender's entry and the callbacks are what the sender makes of the
  -- message, and the entries of all others and the monitors are what they were.
  pub record Receives (msg : M) (v : Vehicle D) (t : VehicleTracker D) (u : TrackerUpdate D)
      : Type 0 where
    pub filed : IsFiled u.tracker.vehicles
    pub handled : find (sysid msg) u.tracker.vehicles ≡ some (Vehicle.dispatch (msgid msg) msg v).0
    pub callbacks : u.callbacks ≡ (Vehicle.dispatch (msgid msg) msg v).1
    pub others : (k : ℕ) → k ≢ sysid msg → find k u.tracker.vehicles ≡ find k t.vehicles
    pub monitors : u.tracker.monitors ≡ t.monitors

  entry-Receives :
      (msg : M) (v : Vehicle D) (added : List (ℕ × ℕ)) (t : VehicleTracker D)
      → v.system_id ≡ sysid msg
      → IsFiled t.vehicles
      → (u : TrackerUpdate D) × (update_entry registers msg v added t ≡ some u)
        × (u.added ≡ added)
        × Receives msg v t u
  unfolding update_entry Vehicle.update
  entry-Receives msg v added t e f =
      let d = Vehicle.dispatch (msgid msg) msg v in
      let s = dispatch-system_id (msgid msg) msg v ∙ e in
      (
        record {
          tracker = record t { vehicles = put (sysid msg) d.0 t.vehicles };
          added = added;
          callbacks = d.1;
        },
        ground arith,
        refl,
        record {
          filed = put-IsFiled (sysid msg) d.0 t.vehicles s f;
          handled = ground (arith, find-put (sysid msg) (sysid msg) d.0 t.vehicles);
          callbacks = refl;
          others = λ k h. ground (arith, find-put k (sysid msg) d.0 t.vehicles);
          monitors = refl;
        },
      )

  from-Receives :
      (msg : M) (t : VehicleTracker D) (o : Option (Vehicle D))
      → find (sysid msg) t.vehicles ≡ o
      → IsFiled t.vehicles
      → (u : TrackerUpdate D) × (update_from registers msg t o ≡ some u)
        × (u.added ≡ (if is_some o then [] else map (λ m. (m, sysid msg)) t.monitors))
        × Receives msg (sender msg t o) t u
  unfolding update_from
  from-Receives msg t (some v) e f =
      entry-Receives msg v [] t (find-IsFiled (sysid msg) v t.vehicles f e) f
  from-Receives msg t none e f =
      let v : Vehicle D = welcome registers t.monitors (Vehicle.create (sysid msg)) in
      let filed : v.system_id ≡ sysid msg =
        welcome-system_id registers t.monitors (Vehicle.create (sysid msg))
        ∙ unfold Vehicle.create in refl in
      entry-Receives msg v (map (λ m. (m, sysid msg)) t.monitors) t filed f

  -- A message that comes to a tracker whose vehicles are filed under their own ids is handled
  -- without a failed assertion: its sender handles it, a new vehicle if it is not on file, the
  -- vehicles stay filed and every other entry is as before. The monitors are told of the sender
  -- exactly when it was not on file.
  pub update-Receives :
      (msg : M) (t : VehicleTracker D)
      → IsFiled t.vehicles
      → (u : TrackerUpdate D) × (update registers msg t ≡ some u)
        × (u.added ≡ (
            if is_some (find (sysid msg) t.vehicles)
            then []
            else map (λ m. (m, sysid msg)) t.monitors))
        × Receives msg (sender msg t (find (sysid msg) t.vehicles)) t u
  unfolding update
  update-Receives msg t f = from-Receives msg t (find (sysid msg) t.vehicles) refl f
