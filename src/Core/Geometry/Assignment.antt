-- ===== src/Core/Geometry/Assignment.antt =====
-- src/airmap/geometry.cpp: construction, `reset` and assignment of geometries.
use platform_sdk.Base.{ℕ, ◌==◌, ◌≡◌, List, [], if◌then◌else◌, none, arith}
use platform_sdk.Core.Geometry.{
  Coordinate, Geometry, invalid, point, multi_point, line_string, multi_line_string, polygon,
  multi_polygon, geometry_collection,
}

module _ {D : Type 0} where
  -- The member that the tag selects is destroyed.
  unfoldable pub reset : Geometry D → Geometry D
  reset g = invalid

  -- On a geometry that has no member: the tag is taken over, and the member is copied.
  unfoldable pub set_geometry : Geometry D → Geometry D
  set_geometry invalid = invalid
  set_geometry (point p) = point p
  set_geometry (multi_point v) = multi_point v
  set_geometry (line_string v) = line_string v
  set_geometry (multi_line_string vs) = multi_line_string vs
  set_geometry (polygon p) = polygon p
  set_geometry (multi_polygon ps) = multi_polygon ps
  set_geometry (geometry_collection gs) = geometry_collection gs

  abbrev pub put : ℕ → Geometry D → (ℕ → Geometry D) → ℕ → Geometry D
  put i g st k = if k == i then g else st k

  -- `*i = *j` for two addresses, which may be the same.
  unfoldable pub assign : ℕ → ℕ → (ℕ → Geometry D) → ℕ → Geometry D
  assign i j st = let st' = put i (reset (st i)) st in put i (set_geometry (st' j)) st'

  -- The geometries of one point and of one ring.
  unfoldable pub point_at : D → D → Geometry D
  point_at lat lon =
      point (record { latitude = lat; longitude = lon; altitude = none; elevation = none })

  unfoldable pub polygon_of : List (Coordinate D) → Geometry D
  polygon_of coordinates =
      polygon (record { outer_ring = record { coordinates = coordinates }; inner_rings = [] })

  set_geometry_lem : (g : Geometry D) → set_geometry g ≡ g
  unfolding set_geometry
  set_geometry_lem g = ground arith

  -- After an assignment, the geometry assigned to is the other one and every other one is what it
  -- was; but a geometry assigned to itself becomes invalid.
  pub assign_lem :
      (i j k : ℕ) (st : ℕ → Geometry D)
      → assign i j st k ≡ (if k == i then (if j == i then invalid else st j) else st k)
  unfolding assign reset
  assign_lem i j k st = ground (arith, set_geometry_lem (st j), set_geometry_lem invalid)
