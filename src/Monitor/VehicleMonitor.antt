-- ===== src/Monitor/VehicleMonitor.antt =====
-- src/airmap/monitor/submitting_vehicle_monitor.{h,cpp}: the callbacks of a vehicle become calls of
-- its submitter.
pub mod Phases
use platform_sdk.Base.{Bool, true, false, Option, none, some, List, [], ◌∷◌, ◌++◌}
use platform_sdk.Mavlink.Message.{
  MavState, uninit, boot, calibrating, standby, active, critical, emergency, poweroff, other,
}
use platform_sdk.Mavlink.Vehicle.{
  Callback, on_system_status_changed, on_position_changed, on_mission_received,
}
use platform_sdk.Monitor.Submitter.Events.{Event, activates, deactivates, submits, sets_mission}

-- From a state on the ground: `new_state == MAV_STATE_ACTIVE`.
unfoldable pub from_ground : {D : Type 0} → MavState → Option (Event D)
from_ground active = some activates
from_ground _ = none

-- From a state in flight: the inner `switch`.
unfoldable pub from_air : {D : Type 0} → MavState → Option (Event D)
from_air uninit = some deactivates
from_air boot = some deactivates
from_air calibrating = some deactivates
from_air standby = some deactivates
from_air _ = none

module _ {D : Type 0} where
  unfoldable pub status_changed : MavState → MavState → Option (Event D)
  unfolding from_ground from_air
  status_changed uninit new_state = from_ground new_state
  status_changed boot new_state = from_ground new_state
  status_changed calibrating new_state = from_ground new_state
  status_changed standby new_state = from_ground new_state
  status_changed active new_state = from_air new_state
  status_changed critical new_state = from_air new_state
  status_changed emergency new_state = from_air new_state
  status_changed _ new_state = none

  -- The call that a callback makes, if any.
  unfoldable pub react : Callback D → Option (Event D)
  unfolding status_changed
  react (on_system_status_changed none new_state) = none
  react (on_system_status_changed (some old_state) new_state) = status_changed old_state new_state
  react (on_position_changed old_position new_position) = some (submits new_position)
  react (on_mission_received geometry) = some (sets_mission geometry)

  unfoldable pub react_all : List (Callback D) → List (Event D)
  unfolding react
  react_all [] = []
  react_all (c ∷ cs) = elim (react c) [ none ↦ react_all cs | some e ↦ e ∷ react_all cs ]
