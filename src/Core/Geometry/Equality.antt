-- ===== src/Core/Geometry/Equality.antt =====
-- src/airmap/geometry.cpp: the comparisons of geometries, and those of include/airmap/optional.h.
use platform_sdk.Base.{Bool, true, false, ◌&&◌, Option, some, List, [], ◌∷◌}
use platform_sdk.Core.Floating.{Floating}
use platform_sdk.Core.Geometry.{
  Coordinate, CoordinateVector, Polygon, Geometry, invalid, point, multi_point, line_string,
  multi_line_string, polygon, multi_polygon, geometry_collection, GeometryCollection,
}

-- `Optional::operator==`: two optionals without a value are not equal.
unfoldable pub optional_eq {ℓ} : {A : Type ℓ} → (A → A → Bool) → Option A → Option A → Bool
optional_eq eq (some x) (some y) = eq x y
optional_eq eq _ _ = false

-- `operator==` of vectors.
unfoldable pub list_eq {ℓ} : {A : Type ℓ} → (A → A → Bool) → List A → List A → Bool
list_eq eq [] [] = true
list_eq eq (x ∷ xs) (y ∷ ys) = eq x y && list_eq eq xs ys
list_eq eq _ _ = false

module _ {D : Type 0} ⦃fl : Floating D⦄ where
  unfoldable pub coordinate_eq : Coordinate D → Coordinate D → Bool
  coordinate_eq a b =
      fl.eq a.latitude b.latitude
      && fl.eq a.longitude b.longitude
      && optional_eq fl.eq a.altitude b.altitude

  unfoldable pub coordinates_eq : CoordinateVector D → CoordinateVector D → Bool
  coordinates_eq a b = list_eq coordinate_eq a.coordinates b.coordinates

  unfoldable pub polygon_eq : Polygon D → Polygon D → Bool
  polygon_eq a b =
      coordinates_eq a.outer_ring b.outer_ring && list_eq coordinates_eq a.inner_rings b.inner_rings

  -- `Geometry::operator==`, and the one of a vector of geometries.
  unfoldable mutual
    pub geometry_eq : Geometry D → Geometry D → Bool
    geometry_eq invalid invalid = true
    geometry_eq (point a) (point b) = coordinate_eq a b
    geometry_eq (multi_point a) (multi_point b) = coordinates_eq a b
    geometry_eq (line_string a) (line_string b) = coordinates_eq a b
    geometry_eq (multi_line_string a) (multi_line_string b) = list_eq coordinates_eq a b
    geometry_eq (polygon a) (polygon b) = polygon_eq a b
    geometry_eq (multi_polygon a) (multi_polygon b) = list_eq polygon_eq a b
    geometry_eq (geometry_collection a) (geometry_collection b) = collection_eq a b
    geometry_eq _ _ = false

    pub collection_eq : GeometryCollection D → GeometryCollection D → Bool
    collection_eq GeometryCollection.nil GeometryCollection.nil = true
    collection_eq (GeometryCollection.cons g gs) (GeometryCollection.cons h hs) =
        geometry_eq g h && collection_eq gs hs
    collection_eq _ _ = false
