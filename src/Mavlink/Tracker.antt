-- ===== src/Mavlink/Tracker.antt =====
-- src/airmap/mavlink/vehicle_tracker.{h,cpp}: the vehicles seen so far, by system id.
pub mod Frame
pub mod Added
use platform_sdk.Base.{
  ℕ, Bool, true, false, ◌==◌, Option, none, some, ◌>>=◌, List, [], ◌∷◌, ◌++◌, map, if◌then◌else◌,
}
use platform_sdk.Mavlink.Message.{Mavlink}
use platform_sdk.Mavlink.Vehicle.{Vehicle, Callback, insert, erase}
use platform_sdk.Mavlink.Vehicle

-- `vehicles_` is an unordered map; the list has its entries in the order of their insertion.
pub record VehicleTracker (D : Type 0) : Type 0 where
  pub monitors : List ℕ
  pub vehicles : List (ℕ × Vehicle D)

-- What a call of `update` makes others do: the calls of `on_vehicle_added`, a tracker's monitor and
-- a system id each, and the callbacks of the vehicle.
pub record TrackerUpdate (D : Type 0) : Type 0 where
  pub tracker : VehicleTracker D
  pub added : List (ℕ × ℕ)
  pub callbacks : List (ℕ × Callback D)

-- A tracker as it is constructed.
unfoldable pub empty : {D : Type 0} → VehicleTracker D
empty = record { monitors = []; vehicles = [] }

module _ {D : Type 0} where
  unfoldable pub register_monitor : ℕ → VehicleTracker D → VehicleTracker D
  register_monitor a t = record t { monitors = insert a t.monitors }

  unfoldable pub unregister_monitor : ℕ → VehicleTracker D → VehicleTracker D
  unregister_monitor a t = record t { monitors = erase a t.monitors }

  unfoldable pub find : ℕ → List (ℕ × Vehicle D) → Option (Vehicle D)
  find k [] = none
  find k ((j, v) ∷ vs) = if j == k then some v else find k vs

  -- A vehicle changes in place.
  unfoldable pub put : ℕ → Vehicle D → List (ℕ × Vehicle D) → List (ℕ × Vehicle D)
  put k v [] = (k, v) ∷ []
  put k v ((j, w) ∷ vs) = if j == k then (k, v) ∷ vs else (j, w) ∷ put k v vs

  unfoldable pub register_all : List ℕ → Vehicle D → Vehicle D
  register_all [] v = v
  register_all (a ∷ rest) v = register_all rest (Vehicle.register_monitor a v)

  -- Each of the tracker's monitors may register monitors with a vehicle that is new.
  unfoldable pub welcome : (ℕ → ℕ → List ℕ) → List ℕ → Vehicle D → Vehicle D
  welcome registers [] v = v
  welcome registers (m ∷ ms) v = welcome registers ms (register_all (registers m v.system_id) v)

module _ {M D : Type 0} ⦃mav : Mavlink M D⦄ (registers : ℕ → ℕ → List ℕ) where
  -- The end of `update`, with the entry that was found or made. `none` is the failed assertion of
  -- the vehicle.
  unfoldable pub update_entry :
      M → Vehicle D → List (ℕ × ℕ) → VehicleTracker D → Option (TrackerUpdate D)
  update_entry msg v added t = do
    (v', callbacks) ← Vehicle.update msg v
    some (record {
      tracker = record t { vehicles = put (mav.sysid msg) v' t.vehicles };
      added = added;
      callbacks = callbacks;
    })

  -- With what `find` returned.
  unfoldable pub update_from : M → VehicleTracker D → Option (Vehicle D) → Option (TrackerUpdate D)
  update_from msg t (some v) = update_entry msg v [] t
  update_from msg t none =
      update_entry msg (welcome registers t.monitors (Vehicle.create (mav.sysid msg)))
        (map (λ m. (m, mav.sysid msg)) t.monitors) t

  unfoldable pub update : M → VehicleTracker D → Option (TrackerUpdate D)
  update msg t = update_from msg t (find (mav.sysid msg) t.vehicles)

  -- A run of messages: the tracker after it, and all calls of `on_vehicle_added`.
  unfoldable pub run : List M → VehicleTracker D → Option (VehicleTracker D × List (ℕ × ℕ))
  run [] t = some (t, [])
  run (msg ∷ msgs) t = do
    u ← update msg t
    (t', added) ← run msgs u.tracker
    some (t', u.added ++ added)
