-- ===== src/Monitor/Daemon/Meeting.antt =====
-- The first message of a sender: its vehicle and its submitter are new.
use platform_sdk.Base.{
  ℕ, String, ◌≡◌, ◌≢◌, refl, ap, none, some, [], ◌∷◌, map, if◌then◌else◌, arith, ◌∙◌, is_some,
}
use platform_sdk.Core.Flight.{Credentials}
use platform_sdk.Mavlink.Message.{Mavlink, MessageId}
use platform_sdk.Mavlink.Vehicle
use platform_sdk.Mavlink.Vehicle.{Vehicle, Callback}
use platform_sdk.Mavlink.Tracker
use platform_sdk.Mavlink.Tracker.{find, TrackerUpdate}
use platform_sdk.Mavlink.Tracker.Frame.{sender}
use platform_sdk.Monitor.Submitter.Types.{Submitter}
use platform_sdk.Monitor.Daemon.{Daemon, registers, store, on_vehicle_added, add_all}
use platform_sdk.Monitor.Daemon.Solo.{Pair, meet}
use platform_sdk.Monitor.Daemon.Shown.{vehicle_of, submitter_of, IsWatched, Shows}

module _ {M D : Type 0} ⦃mav : Mavlink M D⦄ where
  pub dispatch-monitors :
      (i : MessageId) (msg : M) (v : Vehicle D) → (Vehicle.dispatch i msg v).0.monitors ≡ v.monitors
  unfolding Vehicle.dispatch Vehicle.handle_msg_heartbeat Vehicle.handle_msg_global_position_int
      Vehicle.handle_msg_mission
  dispatch-monitors i msg v = ground arith

  module _ (credentials : Credentials) (aircraft_id : String) where
    -- The sender of `msg` and its submitter are what a daemon of its own would meet.
    pub record Introduces (msg : M) (d : Daemon D) (u : TrackerUpdate D)
        (p : Vehicle D × Submitter D) : Type 0 where
      pub vehicle : sender registers msg d.tracker (find (mav.sysid msg) d.tracker.vehicles) ≡ p.0
      pub monitors : p.0.monitors ≡ mav.sysid msg ∷ []
      pub submitter :
          add_all credentials aircraft_id u.added d.submitters (mav.sysid msg) ≡ some p.1
      pub others :
          (j : ℕ)
          → j ≢ mav.sysid msg
          → add_all credentials aircraft_id u.added d.submitters j ≡ d.submitters j

    new-Introduces :
        (msg : M) (d : Daemon D) (u : TrackerUpdate D)
        → find (mav.sysid msg) d.tracker.vehicles ≡ none
        → d.tracker.monitors ≡ 0 ∷ []
        → u.added ≡ (0, mav.sysid msg) ∷ []
        → Introduces msg d u (meet credentials aircraft_id (mav.sysid msg) none)
    unfolding add_all on_vehicle_added store Tracker.welcome Tracker.register_all
        Vehicle.register_monitor Vehicle.create Vehicle.insert
    new-Introduces msg d u missing m a = record {
      vehicle = rw (missing, m) refl;
      monitors = refl;
      submitter = rw a (ground arith);
      others = λ j away. rw a (ground arith);
    }

    pair-Introduces :
        (msg : M) (d : Daemon D) (u : TrackerUpdate D) (p : Pair D)
        → find (mav.sysid msg) d.tracker.vehicles ≡ vehicle_of p
        → d.submitters (mav.sysid msg) ≡ submitter_of p
        → IsWatched (mav.sysid msg) p
        → d.tracker.monitors ≡ 0 ∷ []
        → u.added ≡ (if is_some (vehicle_of p) then [] else (0, mav.sysid msg) ∷ [])
        → Introduces msg d u (meet credentials aircraft_id (mav.sysid msg) p)
    unfolding add_all
    pair-Introduces msg d u none f b w m a = new-Introduces msg d u f m a
    pair-Introduces msg d u (some (v, s)) f b w m a = record {
      vehicle = rw f refl;
      monitors = w;
      submitter = rw a b;
      others = λ j away. rw a refl;
    }

    pub message-Introduces :
        (msg : M) (d : Daemon D) (f : ℕ → Pair D) (u : TrackerUpdate D)
        → Shows d f
        → u.added ≡ (
            if is_some (find (mav.sysid msg) d.tracker.vehicles)
            then []
            else map (λ m. (m, mav.sysid msg)) d.tracker.monitors)
        → Introduces msg d u (meet credentials aircraft_id (mav.sysid msg) (f (mav.sysid msg)))
    message-Introduces msg d f u h a =
        let k = mav.sysid msg in
        pair-Introduces msg d u (f k) (h.vehicles k) (h.submitters k) (h.watched k) h.monitors (
          a
          ∙ ap (λ o. if is_some o then [] else map (λ m. (m, k)) d.tracker.monitors) (h.vehicles k)
          ∙ ap (λ ms. if is_some (vehicle_of (f k)) then [] else map (λ m. (m, k)) ms) h.monitors)
