-- ===== src/Monitor/Daemon/Solo.antt =====
-- What a daemon that hears only one system id would do: one vehicle with one submitter, and no
-- tracker, no map and no addresses.
use platform_sdk.Base.{
  ℕ, String, ◌==◌, Option, none, some, ◌>>=◌, List, [], ◌∷◌, map, if◌then◌else◌,
}
use platform_sdk.Core.Floating.{Floating}
use platform_sdk.Core.Flight.{Credentials}
use platform_sdk.Mavlink.Message.{Mavlink}
use platform_sdk.Mavlink.Vehicle
use platform_sdk.Mavlink.Vehicle.{Vehicle}
use platform_sdk.Monitor.Submitter.Types
use platform_sdk.Monitor.Submitter.Types.{Env, Submitter}
use platform_sdk.Monitor.Submitter.Events
use platform_sdk.Monitor.Submitter.Events.{replies}
use platform_sdk.Monitor.VehicleMonitor.{react_all}
use platform_sdk.Monitor.Daemon.{Input, message, replied}

-- The vehicle and its submitter, once it was heard.
abbrev pub Pair : Type 0 → Type 0
Pair D = Option (Vehicle D × Submitter D)

module _ {D : Type 0} (credentials : Credentials) (aircraft_id : String) where
  -- A vehicle is new until its first message.
  abbrev pub meet : ℕ → Pair D → Vehicle D × Submitter D
  meet k none =
      (Vehicle.register_monitor k (Vehicle.create k), Types.create credentials aircraft_id)
  meet k (some p) = p

module _ {D : Type 0} ⦃fl : Floating D⦄ where
  abbrev pub answer : Env → Events.Event D → Pair D → Option (Pair D)
  answer env e none = some none
  answer env e (some (v, s)) = do s' ← Events.step (env, e) s; some (some (v, s'))

module _ {M D : Type 0} ⦃mav : Mavlink M D⦄ where
  abbrev pub owner : Input M D → ℕ
  owner (message env msg) = mav.sysid msg
  owner (replied env k r) = k

module _ {M D : Type 0} ⦃mav : Mavlink M D⦄ ⦃fl : Floating D⦄ where
  -- A message to the vehicle; then its submitter runs through what the vehicle reports of it.
  abbrev pub hear : Env → M → Vehicle D × Submitter D → Option (Pair D)
  hear env msg (v, s) =
      let (v', callbacks) = Vehicle.dispatch (mav.msgid msg) msg v in
      do
        s' ← Events.run (map (λ e. (env, e)) (react_all (map (λ c. c.1) callbacks))) s
        some (some (v', s'))

  module _ (credentials : Credentials) (aircraft_id : String) where
    abbrev pub solo : Input M D → Pair D → Option (Pair D)
    solo (message env msg) o = hear env msg (meet credentials aircraft_id (mav.sysid msg) o)
    solo (replied env k r) o = answer env (replies r) o

    -- The inputs of all others are passed over.
    abbrev pub solo_run : ℕ → List (Input M D) → Pair D → Option (Pair D)
    solo_run k [] o = some o
    solo_run k (i ∷ inputs) o = do
      o' ← if owner i == k then solo i o else some o
      solo_run k inputs o'
