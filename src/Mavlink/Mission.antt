-- ===== src/Mavlink/Mission.antt =====
-- src/airmap/mavlink/mission.{h,cpp}: a mission is received as a count and its items in order.
pub mod Upload
use platform_sdk.Base.{
  ℕ, suc, Bool, true, false, ◌==◌, Option, none, some, List, [], ◌∷◌, ◌++◌, if◌then◌else◌,
}
use platform_sdk.Core.Geometry.{Coordinate}
use platform_sdk.Mavlink.Message.{
  MessageId, heartbeat, global_position_int, mission_clear_all, mission_count, mission_item,
  unhandled, MissionItem, Mavlink,
}

-- `counter_` stays at most 2 ^ 16, since an item has a 16-bit number, and does not wrap.
pub record Mission (D : Type 0) : Type 0 where
  pub coordinates : List (Coordinate D)
  pub counter : ℕ
  pub mission_size : ℕ

module _ {D : Type 0} where
  -- A mission with its members' initial values; `mission_clear_all` sets the same.
  unfoldable pub cleared : Mission D
  cleared = record { coordinates = []; counter = 0; mission_size = 0 }

  unfoldable pub handle_msg_mission_clear_all : Mission D → Mission D
  unfolding cleared
  handle_msg_mission_clear_all m = cleared

  unfoldable pub handle_msg_mission_count : ℕ → Mission D → Mission D
  handle_msg_mission_count count m = record { coordinates = []; counter = 0; mission_size = count }

  abbrev pub coordinate_of : MissionItem D → Coordinate D
  coordinate_of i = record {
    latitude = i.x;
    longitude = i.y;
    altitude = some i.z;
    elevation = none;
  }

  -- With the number by which a waypoint is told. The result says whether the mission is complete.
  unfoldable pub handle_msg_mission_item : ℕ → MissionItem D → Mission D → Mission D × Bool
  handle_msg_mission_item nav_waypoint i m =
      if i.seq == m.counter
      then (
        record {
          coordinates =
              if i.mission_type == nav_waypoint
              then m.coordinates ++ coordinate_of i ∷ []
              else m.coordinates;
          counter = suc m.counter;
          mission_size = m.mission_size;
        },
        suc m.counter == m.mission_size,
      )
      else (m, false)

module _ {M D : Type 0} ⦃mav : Mavlink M D⦄ where
  open mav use {msgid, mission_count_decode, mission_item_decode, nav_waypoint}

  unfoldable pub dispatch : MessageId → M → Mission D → Mission D × Bool
  dispatch mission_clear_all msg m = (handle_msg_mission_clear_all m, false)
  dispatch mission_count msg m = (handle_msg_mission_count (mission_count_decode msg) m, false)
  dispatch mission_item msg m = handle_msg_mission_item nav_waypoint (mission_item_decode msg) m
  dispatch _ msg m = (m, false)

  unfoldable pub update : M → Mission D → Mission D × Bool
  update msg m = dispatch (msgid msg) msg m
