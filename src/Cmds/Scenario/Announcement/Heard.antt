-- ===== src/Cmds/Scenario/Announcement/Heard.antt =====
-- A vehicle that hears the announcement of its participant.
use mathlib.Core.List.{append-nil, append_assoc}
use platform_sdk.Base.{
  ℕ, suc, false, ◌+◌, ◌%◌, ◌<◌, ◌==◌, ◌≡◌, ◌≢◌, refl, ◌∙◌, Option, none, some, ◌>>=◌, List, [], ◌∷◌,
  ◌++◌, map, length, if◌then◌else◌, arith,
}
use platform_sdk.Core.Geometry.{Coordinate, Polygon, line_string, details_for_polygon}
use platform_sdk.Mavlink.Message.{active, GlobalPositionInt, Mavlink}
use platform_sdk.Mavlink.Mission.{
  Mission, coordinate_of, handle_msg_mission_item, handle_msg_mission_count,
}
use platform_sdk.Mavlink.Mission
use platform_sdk.Mavlink.Vehicle.{
  Vehicle, Callback, on_system_status_changed, on_position_changed, on_mission_received, notify,
  handle_msg_mission,
}
use platform_sdk.Mavlink.Vehicle
use platform_sdk.Util.CheapRuler.{Reals}
use platform_sdk.Util.ScenarioSimulator.{Participant}
use platform_sdk.Cmds.Scenario.Announcement.{Packing, altitude, vz, position_of, items, announce}

module _ {M D : Type 0} ⦃mav : Mavlink M D⦄ ⦃pack : Packing M D⦄ ⦃r : Reals D⦄ where
  open mav use {nav_waypoint}
  open pack use {mission_item_pack}

  -- A vehicle hears messages, one after another.
  unfoldable pub hear : List M → Vehicle D → Option (Vehicle D × List (ℕ × Callback D))
  hear [] v = some (v, [])
  hear (m ∷ ms) v = do (v', cs) ← Vehicle.update m v; (v'', cs') ← hear ms v'; some (v'', cs ++ cs')

module _ (M : Type 0) {D : Type 0} ⦃mav : Mavlink M D⦄ ⦃pack : Packing M D⦄ ⦃r : Reals D⦄ where
  open mav use {nav_waypoint}
  open pack use {mission_item_pack, mission_count_pack, heartbeat_pack, narrow}

  -- The coordinate as an item has it, at the altitude of the announcement.
  abbrev pub raised : Coordinate D → Coordinate D
  raised c = record {
    latitude = narrow c.latitude;
    longitude = narrow c.longitude;
    altitude = some vz;
    elevation = none;
  }

  -- An item that comes in order.
  item_lem :
      (id k n : ℕ) (c : Coordinate D) (v : Vehicle D)
      → v.system_id ≡ id % 256
      → nav_waypoint < 256
      → v.mission.counter ≡ k
      → v.mission.mission_size ≡ n
      → k < 65536
      → Vehicle.update
          (mission_item_pack id k 0 (narrow c.latitude) (narrow c.longitude) vz nav_waypoint)
          v
        ≡ (let m : Mission D = record {
          coordinates = v.mission.coordinates ++ raised c ∷ [];
          counter = suc k;
          mission_size = n;
        } in
            some (
              record v { mission = m },
              if suc k == n
                  then notify v.monitors
                      (on_mission_received (line_string (record { coordinates = m.coordinates })))
                  else [],
            ))
  unfolding Vehicle.update Vehicle.dispatch handle_msg_mission Mission.update Mission.dispatch
      handle_msg_mission_item
  item_lem id k n c v self small at size lt = ground (
    arith,
    pack.sysid-item id k 0 (narrow c.latitude) (narrow c.longitude) vz nav_waypoint,
    pack.msgid-item id k 0 (narrow c.latitude) (narrow c.longitude) vz nav_waypoint,
    pack.decode-item id k 0 (narrow c.latitude) (narrow c.longitude) vz nav_waypoint,
  )

  -- The mission that all coordinates make, and what the monitors are told of it.
  abbrev complete_mission : List (Coordinate D) → ℕ → Mission D
  complete_mission cs n = record { coordinates = cs; counter = n; mission_size = n }

  abbrev pub tell_mission : List ℕ → List (Coordinate D) → List (ℕ × Callback D)
  tell_mission monitors cs =
      notify monitors (on_mission_received (line_string (record { coordinates = cs })))

  -- The state after all items, and what follows on them.
  items_lem :
      (id k n : ℕ) (c : Coordinate D) (cs : List (Coordinate D)) (rest : List M) (v : Vehicle D)
      → v.system_id ≡ id % 256
      → nav_waypoint < 256
      → v.mission.counter ≡ k
      → v.mission.mission_size ≡ n
      → k + length (c ∷ cs) ≡ n
      → n < 65536
      → (whole : List (Coordinate D)) → v.mission.coordinates ++ map raised (c ∷ cs) ≡ whole
      → (v' : Vehicle D) (told : List (ℕ × Callback D))
      → hear rest (record v { mission = complete_mission whole n }) ≡ some (v', told)
      → hear {M = M} (items id k (c ∷ cs) ++ rest) v
        ≡ some (v', tell_mission v.monitors whole ++ told)
  unfolding hear items
  items_lem id k n c [] rest v self small at size total bound whole e v' told h =
      let last = item_lem id k n c v self small at size (omega (arith, total, bound)) in
      ground arith
  items_lem id k n c (c' ∷ cs) rest v self small at size total bound whole e v' told h =
      let first = item_lem id k n c v self small at size (omega (arith, total, bound)) in
      let next : Vehicle D = record v {
        mission = record {
          coordinates = v.mission.coordinates ++ raised c ∷ [];
          counter = suc k;
          mission_size = n;
        };
      } in
      let more =
        items_lem id (suc k) n c' cs rest next self small refl refl (omega (arith, total)) bound
          whole (append_assoc v.mission.coordinates (raised c ∷ []) (map raised (c' ∷ cs)) ∙ e) v'
          told h in
      let step : (k + 1) % 65536 ≡ suc k = omega (arith, total, bound) in
      let early : suc k == n ≡ false = ground (arith, total) in
      rw first (rw (early, step) (rw more refl))

  -- The position that is announced for a coordinate.
  abbrev pub announced : Coordinate D → GlobalPositionInt
  announced c = record {
    lat = pack.to_integer (r.mul c.latitude (r.decimal 10000000 0));
    lon = pack.to_integer (r.mul c.longitude (r.decimal 10000000 0));
    alt = pack.to_integer altitude;
    relative_alt = pack.to_integer altitude;
  }

  position_lem :
      (id : ℕ) (c : Coordinate D) (v : Vehicle D)
      → v.system_id ≡ id % 256
      → Vehicle.update {M = M} (position_of id c) v
        ≡ some (
          record v { global_position_int = some (announced c) },
          notify v.monitors (on_position_changed v.global_position_int (announced c)),
        )
  unfolding Vehicle.update Vehicle.dispatch Vehicle.handle_msg_global_position_int position_of
  position_lem id c v self =
      let lat = r.mul c.latitude (r.decimal 10000000 0) in
      let lon = r.mul c.longitude (r.decimal 10000000 0) in
      ground (
        arith,
        pack.sysid-position id lat lon altitude altitude,
        pack.msgid-position id lat lon altitude altitude,
        pack.decode-position id lat lon altitude altitude,
      )

  count_lem :
      (id n : ℕ) (v : Vehicle D)
      → v.system_id ≡ id % 256
      → n < 65536
      → Vehicle.update {M = M} (mission_count_pack id n) v
        ≡ some
            (record v { mission = record { coordinates = []; counter = 0; mission_size = n } }, [])
  unfolding Vehicle.update Vehicle.dispatch handle_msg_mission Mission.update Mission.dispatch
      handle_msg_mission_count
  count_lem id n v self bound =
      ground (arith, pack.sysid-count id n, pack.msgid-count id n, pack.decode-count id n)

  heartbeat_lem :
      (id : ℕ) (v : Vehicle D)
      → v.system_id ≡ id % 256
      → v.system_status ≢ active
      → Vehicle.update {M = M} (heartbeat_pack id active) v
        ≡ some (
          record v { system_status = active },
          notify v.monitors (on_system_status_changed (some v.system_status) active),
        )
  unfolding Vehicle.update Vehicle.dispatch Vehicle.handle_msg_heartbeat
  heartbeat_lem id v self idle = ground (
    arith,
    pack.sysid-heartbeat id active,
    pack.msgid-heartbeat id active,
    pack.decode-heartbeat id active,
  )

  -- The vehicle once it has heard all.
  abbrev pub informed : Coordinate D → List (Coordinate D) → Vehicle D → Vehicle D
  informed c cs v = record {
    system_id = v.system_id;
    monitors = v.monitors;
    system_status = active;
    global_position_int = some (announced c);
    mission = complete_mission (map raised (c ∷ cs)) (length (c ∷ cs));
  }

  -- A participant with a polygon of 1 to 65535 coordinates, and a vehicle with the last 8 bits of its
  -- id that is not active: the vehicle handles every message of the announcement. It comes to the
  -- position of the first coordinate, to the whole ring as its mission, with the coordinates cut to the
  -- type float and at the altitude of the announcement, and to the active state; each monitor is told of the position, then of the mission,
  -- once and complete, and then of the state.
  pub announce-hear :
      (p : Participant D) (area : Polygon D) (c : Coordinate D) (cs : List (Coordinate D))
      (v : Vehicle D)
      → details_for_polygon p.geometry ≡ some area
      → area.outer_ring.coordinates ≡ c ∷ cs
      → length (c ∷ cs) < 65536
      → nav_waypoint < 256
      → v.system_id ≡ p.id % 256
      → v.system_status ≢ active
      → (ms : List M) × (announce p ≡ some ms)
        × (hear ms v
            ≡ some (
              informed c cs v,
              notify v.monitors (on_position_changed v.global_position_int (announced c))
                  ++ (tell_mission v.monitors (map raised (c ∷ cs))
                      ++ notify v.monitors
                          (on_system_status_changed (some v.system_status) active)),
            ))
  unfolding announce hear
  announce-hear p area c cs v has ring bound small self idle =
      let n = length (c ∷ cs) in
      let placed : Vehicle D = record v { global_position_int = some (announced c) } in
      let counted : Vehicle D = record placed {
        mission = record { coordinates = []; counter = 0; mission_size = n };
      } in
      let loaded : Vehicle D = record placed {
        mission = complete_mission (map raised (c ∷ cs)) n;
      } in
      let alive = heartbeat_lem p.id loaded self idle in
      let rest =
        items_lem p.id 0 n c cs (heartbeat_pack p.id active ∷ []) counted self small refl refl
          (omega arith) bound (map raised (c ∷ cs)) refl (informed c cs v)
          (notify v.monitors (on_system_status_changed (some v.system_status) active))
          (rw alive (
            rw
              (append-nil
                (notify v.monitors (on_system_status_changed (some v.system_status) active)))
              refl)) in
      (
        position_of p.id c
            ∷ mission_count_pack p.id n
            ∷ (items p.id 0 (c ∷ cs) ++ heartbeat_pack p.id active ∷ []),
        rw (has, ring) refl,
        rw (position_lem p.id c v self) (rw (count_lem p.id n placed self bound) (rw rest refl)),
      )
