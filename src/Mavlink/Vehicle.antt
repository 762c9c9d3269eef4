-- ===== src/Mavlink/Vehicle.antt =====
-- src/airmap/mavlink/vehicle.{h,cpp}: what a vehicle last reported, and its monitors.
use platform_sdk.Base.{
  ℕ, ◌==◌, Option, none, some, List, [], ◌∷◌, map, if◌then◌else◌, ite, ℕ_discrete,
}
use platform_sdk.Core.Geometry.{Geometry, line_string}
use platform_sdk.Mavlink.Message.{
  MavState, uninit, MessageId, heartbeat, global_position_int, mission_clear_all, mission_count,
  mission_item, unhandled, GlobalPositionInt, Mavlink,
}
use platform_sdk.Mavlink.Mission.{Mission, cleared}
use platform_sdk.Mavlink.Mission

-- A call of a monitor's method.
pub data Callback (D : Type 0) : Type 0 where
  on_system_status_changed : Option MavState → MavState → Callback D
  on_position_changed : Option GlobalPositionInt → GlobalPositionInt → Callback D
  on_mission_received : Geometry D → Callback D

-- A monitor is known by its address. `monitors_` is an unordered set: the list has each once, in
-- the order of its iteration.
pub record Vehicle (D : Type 0) : Type 0 where
  pub system_id : ℕ
  pub monitors : List ℕ
  pub system_status : MavState
  pub global_position_int : Option GlobalPositionInt
  pub mission : Mission D

unfoldable pub MavState-discrete : Discrete MavState
MavState-discrete = hlevel ℕ_discrete

-- `insert` into a set of addresses, and `erase` from it.
unfoldable pub insert : ℕ → List ℕ → List ℕ
insert a [] = a ∷ []
insert a (b ∷ bs) = if b == a then b ∷ bs else b ∷ insert a bs

unfoldable pub erase : ℕ → List ℕ → List ℕ
erase a [] = []
erase a (b ∷ bs) = if b == a then bs else b ∷ erase a bs

module _ {D : Type 0} where
  unfoldable pub create : ℕ → Vehicle D
  unfolding cleared
  create system_id = record {
    system_id = system_id;
    monitors = [];
    system_status = uninit;
    global_position_int = none;
    mission = cleared;
  }

  unfoldable pub register_monitor : ℕ → Vehicle D → Vehicle D
  register_monitor a v = record v { monitors = insert a v.monitors }

  unfoldable pub unregister_monitor : ℕ → Vehicle D → Vehicle D
  unregister_monitor a v = record v { monitors = erase a v.monitors }

  -- The calls that a loop over the monitors makes.
  abbrev pub notify : List ℕ → Callback D → List (ℕ × Callback D)
  notify ms c = map (λ m. (m, c)) ms

  unfoldable pub handle_msg_heartbeat : MavState → Vehicle D → Vehicle D × List (ℕ × Callback D)
  handle_msg_heartbeat status v =
      ite (MavState-discrete v.system_status status) (v, [])
        (
          record v { system_status = status },
          notify v.monitors (on_system_status_changed (some v.system_status) status),
        )

  unfoldable pub handle_msg_global_position_int :
      GlobalPositionInt → Vehicle D → Vehicle D × List (ℕ × Callback D)
  handle_msg_global_position_int gpi v = (
    record v { global_position_int = some gpi },
    notify v.monitors (on_position_changed v.global_position_int gpi),
  )

module _ {M D : Type 0} ⦃mav : Mavlink M D⦄ where
  open mav use {msgid, heartbeat_decode, global_position_int_decode}

  unfoldable pub handle_msg_mission : M → Vehicle D → Vehicle D × List (ℕ × Callback D)
  handle_msg_mission msg v =
      let (mission, complete) = Mission.update msg v.mission in
      (
        record v { mission = mission },
        if complete
            then notify v.monitors
                (on_mission_received (line_string (record { coordinates = mission.coordinates })))
            else [],
      )

  unfoldable pub dispatch : MessageId → M → Vehicle D → Vehicle D × List (ℕ × Callback D)
  dispatch heartbeat msg v = handle_msg_heartbeat (heartbeat_decode msg) v
  dispatch global_position_int msg v =
      handle_msg_global_position_int (global_position_int_decode msg) v
  dispatch mission_clear_all msg v = handle_msg_mission msg v
  dispatch mission_count msg v = handle_msg_mission msg v
  dispatch mission_item msg v = handle_msg_mission msg v
  dispatch unhandled msg v = (v, [])

  -- `none` is the failed assertion that the message is this vehicle's.
  unfoldable pub update : M → Vehicle D → Option (Vehicle D × List (ℕ × Callback D))
  update msg v = if v.system_id == mav.sysid msg then some (dispatch (msgid msg) msg v) else none
