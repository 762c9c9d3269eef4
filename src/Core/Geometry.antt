-- ===== src/Core/Geometry.antt =====
-- include/airmap/geometry.h and src/airmap/geometry.cpp: the variant and its accessors.
pub mod Equality
pub mod Assignment
pub mod Reflexive
use platform_sdk.Base.{Option, none, some, List}

-- `elevation` stays unset wherever the code builds a coordinate.
pub record Coordinate (D : Type 0) : Type 0 where
  pub latitude : D
  pub longitude : D
  pub altitude : Option D
  pub elevation : Option D

pub record CoordinateVector (D : Type 0) : Type 0 where
  pub coordinates : List (Coordinate D)

pub record Polygon (D : Type 0) : Type 0 where
  pub outer_ring : CoordinateVector D
  pub inner_rings : List (CoordinateVector D)

-- The tag and the union member that it selects.
mutual
  pub data Geometry (D : Type 0) : Type 0 where
    invalid : Geometry D
    point : Coordinate D → Geometry D
    multi_point : CoordinateVector D → Geometry D
    line_string : CoordinateVector D → Geometry D
    multi_line_string : List (CoordinateVector D) → Geometry D
    polygon : Polygon D → Geometry D
    multi_polygon : List (Polygon D) → Geometry D
    geometry_collection : GeometryCollection D → Geometry D

  pub data GeometryCollection (D : Type 0) : Type 0 where
    nil : GeometryCollection D
    cons : Geometry D → GeometryCollection D → GeometryCollection D

-- The accessor reads a union member: with another tag the read is undefined.
unfoldable pub details_for_polygon : {D : Type 0} → Geometry D → Option (Polygon D)
details_for_polygon (polygon p) = some p
details_for_polygon _ = none
