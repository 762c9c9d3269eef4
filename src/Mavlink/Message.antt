-- ===== src/Mavlink/Message.antt =====
-- What the code reads of a MAVLink message. The MAVLink library is no part of the sources: its
-- message type and its decoders are the fields of `Mavlink`, and its structs have the fields that
-- the code uses.
use platform_sdk.Base.{ℕ}
use platform_sdk.Base.Int.{ℤ}

-- `MAV_STATE`: the values that the code names, and any other byte.
pub data MavState : Type 0 where
  uninit boot calibrating standby active critical emergency poweroff : MavState
  other : ℕ → MavState

-- The identifiers that the code dispatches on.
pub data MessageId : Type 0 where
  heartbeat global_position_int mission_clear_all mission_count mission_item unhandled : MessageId

-- `mavlink_global_position_int_t`; each field is an `int32_t`.
pub record GlobalPositionInt : Type 0 where
  pub lat : ℤ
  pub lon : ℤ
  pub alt : ℤ
  pub relative_alt : ℤ

-- `mavlink_mission_item_t`.
pub record MissionItem (D : Type 0) : Type 0 where
  pub seq : ℕ
  pub mission_type : ℕ
  pub x : D
  pub y : D
  pub z : D

pub record Mavlink (M D : Type 0) : Type 0 where
  pub sysid : M → ℕ
  pub msgid : M → MessageId
  pub heartbeat_decode : M → MavState
  pub global_position_int_decode : M → GlobalPositionInt
  pub mission_count_decode : M → ℕ
  pub mission_item_decode : M → MissionItem D
  -- `MAV_CMD_NAV_WAYPOINT`
  pub nav_waypoint : ℕ
