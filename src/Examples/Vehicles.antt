-- ===== src/Examples/Vehicles.antt =====
-- Vehicles, their missions and the tracker.
use platform_sdk.Base.{ℕ, ◌≡◌, refl, true, false, some, none, List, [], ◌∷◌, arith}
use platform_sdk.Mavlink.Message.{
  uninit, boot, standby, active, critical, poweroff, heartbeat, MissionItem,
}
use platform_sdk.Mavlink.Mission.{cleared, handle_msg_mission_count}
use platform_sdk.Mavlink.Mission.Upload.{
  feed, in_order, waypoints, feed-mission_count, upload_loses_waypoints,
}
use platform_sdk.Mavlink.Vehicle.{Vehicle}
use platform_sdk.Mavlink.Tracker
use platform_sdk.Mavlink.Tracker.{VehicleTracker, TrackerUpdate}
use platform_sdk.Mavlink.Tracker.Frame.{update-Receives}
use platform_sdk.Mavlink.Tracker.Added.{Announces, run-Announces}
use platform_sdk.Monitor.VehicleMonitor.Phases.{phase, watch, watch-phase, poweroff-watch}
use platform_sdk.Examples.Fixtures.{Message, messages, item}

-- Item 1 comes twice and item 3 is early.
abbrev disturbed : List (MissionItem ℕ)
disturbed = item 0 16 ∷ item 1 16 ∷ item 1 16 ∷ item 3 16 ∷ item 2 0 ∷ []

feed-mission_count_example :
    (feed 16 disturbed (handle_msg_mission_count 3 cleared)).0.coordinates
    ≡ waypoints 16 (in_order 0 disturbed)
feed-mission_count_example = (feed-mission_count 16 3 cleared disturbed).0

abbrev plain : List (MissionItem ℕ)
plain = item 0 0 ∷ item 1 0 ∷ []

upload_loses_waypoints_example :
    (feed 16 plain (handle_msg_mission_count 2 cleared)).0.coordinates ≡ []
upload_loses_waypoints_example =
    (upload_loses_waypoints 16 cleared plain (λ e. cc) (refl, (refl, tt))
      (λ e. omega arith, (λ e. omega arith, tt))).0

abbrev watched : Vehicle ℕ
watched = record {
  system_id = 7;
  monitors = 1 ∷ [];
  system_status = uninit;
  global_position_int = none;
  mission = record { coordinates = []; counter = 0; mission_size = 0 };
}

watch-phase_example :
    phase false (watch (boot ∷ standby ∷ active ∷ active ∷ critical ∷ []) watched) ≡ true
watch-phase_example =
    watch-phase 1 (boot ∷ standby ∷ active ∷ active ∷ critical ∷ []) watched refl
      (refl, (refl, (refl, (refl, (refl, tt)))))

poweroff-watch_example :
    watch (poweroff ∷ boot ∷ standby ∷ []) (record watched { system_status = active }) ≡ []
poweroff-watch_example =
    poweroff-watch 1 (boot ∷ standby ∷ []) (record watched { system_status = active }) refl refl
      (refl, (refl, tt))

abbrev from_7 : Message
from_7 = record { sender = 7; id = heartbeat; payload = 0 }

abbrev from_9 : Message
from_9 = record { sender = 9; id = heartbeat; payload = 0 }

abbrev tracker : VehicleTracker ℕ
tracker = record { monitors = 1 ∷ []; vehicles = (7, watched) ∷ [] }

update-Receives_example :
    (Tracker.update (λ m k. k ∷ []) from_7 tracker)
    ≡ some ((update-Receives (λ m k. k ∷ []) from_7 tracker (refl, tt)).0)
update-Receives_example = (update-Receives (λ m k. k ∷ []) from_7 tracker (refl, tt)).1

run-Announces_example :
    Announces
      (λ m k. k ∷ [])
      1
      9
      (from_7 ∷ from_9 ∷ from_9 ∷ [])
      tracker
      (Tracker.run (λ m k. k ∷ []) (from_7 ∷ from_9 ∷ from_9 ∷ []) tracker)
run-Announces_example =
    run-Announces (λ m k. k ∷ []) 1 9 (from_7 ∷ from_9 ∷ from_9 ∷ []) tracker (refl, tt)
