-- ===== src/Monitor/Daemon.antt =====
-- src/airmap/monitor/daemon.cpp: the daemon gives each vehicle that its tracker finds a submitter of
-- its own, and hands the tracker each message.
-- A call that a submitter makes is answered later, so a reply is an input of its own.
pub mod Solo
pub mod Delivery
pub mod Shown
pub mod Meeting
pub mod Refinement
use platform_sdk.Base.{ℕ, String, ◌==◌, Option, none, some, ◌>>=◌, List, [], ◌∷◌, if◌then◌else◌}
use platform_sdk.Core.Floating.{Floating}
use platform_sdk.Core.Flight.{Credentials}
use platform_sdk.Mavlink.Message.{Mavlink}
use platform_sdk.Mavlink.Vehicle.{Callback}
use platform_sdk.Mavlink.Tracker
use platform_sdk.Mavlink.Tracker.{VehicleTracker, TrackerUpdate}
use platform_sdk.Monitor.Submitter.Types.{Env, Reply, Submitter}
use platform_sdk.Monitor.Submitter.Types
use platform_sdk.Monitor.Submitter.Events.{Event, replies, step}
use platform_sdk.Monitor.VehicleMonitor.{react}

-- A vehicle monitor has the system id of its vehicle for its address, and `submitters` is the
-- submitter that the monitor at an address holds.
pub record Daemon (D : Type 0) : Type 0 where
  pub tracker : VehicleTracker D
  pub submitters : ℕ → Option (Submitter D)

-- What comes to the daemon: a message of the channel, or a reply to the submitter of a vehicle.
pub data Input (M D : Type 0) : Type 0 where
  message : Env → M → Input M D
  replied : Env → ℕ → Reply D → Input M D

-- `on_vehicle_added` registers one monitor.
abbrev pub registers : ℕ → ℕ → List ℕ
registers m k = k ∷ []

module _ {D : Type 0} where
  unfoldable pub store : ℕ → Submitter D → (ℕ → Option (Submitter D)) → ℕ → Option (Submitter D)
  store k s submitters j = if k == j then some s else submitters j

  -- `finalize`: the tracker's monitor, which logs and then calls the daemon, has the address 0.
  unfoldable pub finalize : Daemon D
  finalize = record { tracker = Tracker.register_monitor 0 Tracker.empty; submitters = λ k. none }

module _ {D : Type 0} (credentials : Credentials) (aircraft_id : String) where
  unfoldable pub on_vehicle_added : ℕ → (ℕ → Option (Submitter D)) → ℕ → Option (Submitter D)
  on_vehicle_added k submitters = store k (Types.create credentials aircraft_id) submitters

  unfoldable pub add_all : List (ℕ × ℕ) → (ℕ → Option (Submitter D)) → ℕ → Option (Submitter D)
  add_all [] submitters = submitters
  add_all ((m, k) ∷ added) submitters = add_all added (on_vehicle_added k submitters)

module _ {D : Type 0} ⦃fl : Floating D⦄ (env : Env) where
  -- An event for the submitter of a monitor, if there is one.
  unfoldable pub signal :
      ℕ → Option (Event D) → (ℕ → Option (Submitter D)) → Option (ℕ → Option (Submitter D))
  signal k none submitters = some submitters
  signal k (some e) submitters = elim (submitters k) [
    | none ↦ some submitters
    | some s ↦ do s' ← step (env, e) s; some (store k s' submitters)
  ]

  -- The callbacks of a vehicle, in turn.
  unfoldable pub feed :
      List (ℕ × Callback D) → (ℕ → Option (Submitter D)) → Option (ℕ → Option (Submitter D))
  feed [] submitters = some submitters
  feed ((k, c) ∷ cs) submitters = do
    submitters' ← signal k (react c) submitters
    feed cs submitters'

module _ {M D : Type 0} ⦃mav : Mavlink M D⦄ ⦃fl : Floating D⦄ where
  module _ (credentials : Credentials) (aircraft_id : String) where
    unfoldable pub handle_mavlink_message : Env → M → Daemon D → Option (Daemon D)
    handle_mavlink_message env msg d = do
      u ← Tracker.update registers msg d.tracker
      submitters' ← feed env u.callbacks (add_all credentials aircraft_id u.added d.submitters)
      some (record { tracker = u.tracker; submitters = submitters' })

    unfoldable pub handle : Input M D → Daemon D → Option (Daemon D)
    handle (message env msg) d = handle_mavlink_message env msg d
    handle (replied env k r) d = do
      submitters' ← signal env k (some (replies r)) d.submitters
      some (record d { submitters = submitters' })

    -- `none` is undefined behaviour, or a failed assertion.
    unfoldable pub run : List (Input M D) → Daemon D → Option (Daemon D)
    run [] d = some d
    run (i ∷ inputs) d = do d' ← handle i d; run inputs d'
