-- ===== src/Mavlink/Mission/Upload.antt =====
-- A whole upload: the count and then the items, as they come, repeated, missing or out of order.
use mathlib.Core.List.{append-nil, append_assoc}
use platform_sdk.Base.{
  ℕ, suc, ◌+◌, ◌==◌, ◌&&◌, ltb, leb, ◌≡◌, ◌≢◌, refl, ap, List, [], ◌∷◌, ◌++◌, if◌then◌else◌, length,
  All, arith, ◌∙◌, sym,
}
use platform_sdk.Core.Geometry.{Coordinate}
use platform_sdk.Mavlink.Message.{MissionItem}
use platform_sdk.Mavlink.Mission.{
  Mission, coordinate_of, handle_msg_mission_count, handle_msg_mission_item,
}

module _ {D : Type 0} where
  -- The mission after some items, and how often the mission was reported complete.
  unfoldable pub feed : ℕ → List (MissionItem D) → Mission D → Mission D × ℕ
  feed nav [] m = (m, 0)
  feed nav (i ∷ is) m =
      let (m', complete) = handle_msg_mission_item nav i m in
      let (m'', n) = feed nav is m' in (m'', if complete then suc n else n)

  -- The items numbered n, n + 1, … among those given, each the first after the one before it.
  unfoldable pub in_order : ℕ → List (MissionItem D) → List (MissionItem D)
  in_order n [] = []
  in_order n (i ∷ is) = if i.seq == n then i ∷ in_order (suc n) is else in_order n is

  -- The coordinates of the waypoints.
  unfoldable pub waypoints : ℕ → List (MissionItem D) → List (Coordinate D)
  waypoints nav [] = []
  waypoints nav (i ∷ is) =
      if i.mission_type == nav then coordinate_of i ∷ waypoints nav is else waypoints nav is

  feed-counter :
      (nav : ℕ) (is : List (MissionItem D)) (m : Mission D)
      → ((feed nav is m).0.counter ≡ m.counter + length (in_order m.counter is))
        × ((feed nav is m).0.mission_size ≡ m.mission_size)
  unfolding feed in_order handle_msg_mission_item
  feed-counter nav [] m = (omega arith, refl)
  feed-counter nav (i ∷ is) m = grind (arith, feed-counter nav is)

  feed-coordinates :
      (nav : ℕ) (is : List (MissionItem D)) (m : Mission D)
      → (feed nav is m).0.coordinates ≡ m.coordinates ++ waypoints nav (in_order m.counter is)
  unfolding feed in_order waypoints handle_msg_mission_item
  feed-coordinates nav [] m = sym (append-nil m.coordinates)
  feed-coordinates nav (i ∷ is) m = grind (arith, feed-coordinates nav is, append_assoc)

  feed-completions :
      (nav : ℕ) (is : List (MissionItem D)) (m : Mission D)
      → (feed nav is m).1 ≡ (
          if ltb m.counter m.mission_size
            && leb m.mission_size (m.counter + length (in_order m.counter is))
          then 1
          else 0)
  unfolding feed in_order handle_msg_mission_item
  feed-completions nav [] m = ground arith
  feed-completions nav (i ∷ is) m = grind (arith, feed-completions nav is)

  -- After a count and any items, whatever was received before: the coordinates are those of the
  -- waypoints among the items that came in order, the counter is the number of these items, and
  -- completion is reported once if they reach the count and the count is not 0, and never else.
  pub feed-mission_count :
      (nav count : ℕ) (m : Mission D) (is : List (MissionItem D))
      → ((feed nav is (handle_msg_mission_count count m)).0.coordinates
          ≡ waypoints nav (in_order 0 is))
        × ((feed nav is (handle_msg_mission_count count m)).0.counter ≡ length (in_order 0 is))
        × ((feed nav is (handle_msg_mission_count count m)).1
            ≡ (if ltb 0 count && leb count (length (in_order 0 is)) then 1 else 0))
  unfolding handle_msg_mission_count
  feed-mission_count nav count m is =
      let fresh : Mission D = record { coordinates = []; counter = 0; mission_size = count } in
      (
        feed-coordinates nav is fresh,
        omega (arith, (feed-counter nav is fresh).0),
        ground (arith, feed-completions nav is fresh),
      )

  -- The items of an upload that is not disturbed.
  abbrev pub NumberedFrom : ℕ → List (MissionItem D) → Type 0
  NumberedFrom n [] = Unit {0}
  NumberedFrom n (i ∷ is) = (i.seq ≡ n) × NumberedFrom (suc n) is

  in_order-NumberedFrom :
      (n : ℕ) (is : List (MissionItem D)) → NumberedFrom n is → in_order n is ≡ is
  unfolding in_order
  in_order-NumberedFrom n [] h = refl
  in_order-NumberedFrom n (i ∷ is) h = ground (arith, in_order-NumberedFrom (suc n) is h.1)

  waypoints-none :
      (nav : ℕ) (is : List (MissionItem D))
      → All (λ i. i.mission_type ≢ nav) is
      → waypoints nav is ≡ []
  unfolding waypoints
  waypoints-none nav [] h = refl
  waypoints-none nav (i ∷ is) h = ground (arith, waypoints-none nav is h.1)

  -- The type of the mission is tested against the number of a waypoint command. Where no item has
  -- that number as the type of its mission, a complete and undisturbed upload is reported complete,
  -- and its mission has no coordinate.
  pub upload_loses_waypoints :
      (nav : ℕ) (m : Mission D) (is : List (MissionItem D))
      → is ≢ []
      → NumberedFrom 0 is
      → All (λ i. i.mission_type ≢ nav) is
      → ((feed nav is (handle_msg_mission_count (length is) m)).0.coordinates ≡ [])
        × ((feed nav is (handle_msg_mission_count (length is) m)).1 ≡ 1)
  upload_loses_waypoints nav m [] some_item h w = absurd (some_item refl)
  upload_loses_waypoints nav m (i ∷ is) some_item h w =
      let (coordinates, counter, completed) = feed-mission_count nav (length (i ∷ is)) m (i ∷ is) in
      let ordered = in_order-NumberedFrom 0 (i ∷ is) h in
      (
        coordinates ∙ ap (waypoints nav) ordered ∙ waypoints-none nav (i ∷ is) w,
        completed ∙ rw ordered (ground arith),
      )
