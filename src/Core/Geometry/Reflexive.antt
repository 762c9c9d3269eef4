-- ===== src/Core/Geometry/Reflexive.antt =====
-- Which geometries are equal to themselves.
use platform_sdk.Base.{◌≡◌, refl, Bool, true, ◌&&◌, Option, none, some, List, [], ◌∷◌, is_some}
use platform_sdk.Core.Floating.{Floating}
use platform_sdk.Core.Geometry.{
  Coordinate, CoordinateVector, Polygon, Geometry, invalid, point, multi_point, line_string,
  multi_line_string, polygon, multi_polygon, geometry_collection, GeometryCollection,
}
use platform_sdk.Core.Geometry.Equality.{
  optional_eq, list_eq, coordinate_eq, coordinates_eq, polygon_eq, geometry_eq, collection_eq,
}

abbrev pub every {ℓ} : {A : Type ℓ} → (A → Bool) → List A → Bool
every p [] = true
every p (x ∷ xs) = p x && every p xs

-- Each coordinate has an altitude.
abbrev pub has_altitudes : {D : Type 0} → CoordinateVector D → Bool
has_altitudes v = every (λ c. is_some c.altitude) v.coordinates

abbrev pub polygon_has_altitudes : {D : Type 0} → Polygon D → Bool
polygon_has_altitudes p = has_altitudes p.outer_ring && every has_altitudes p.inner_rings

unfoldable mutual
  pub geometry_has_altitudes : {D : Type 0} → Geometry D → Bool
  geometry_has_altitudes invalid = true
  geometry_has_altitudes (point c) = is_some c.altitude
  geometry_has_altitudes (multi_point v) = has_altitudes v
  geometry_has_altitudes (line_string v) = has_altitudes v
  geometry_has_altitudes (multi_line_string vs) = every has_altitudes vs
  geometry_has_altitudes (polygon p) = polygon_has_altitudes p
  geometry_has_altitudes (multi_polygon ps) = every polygon_has_altitudes ps
  geometry_has_altitudes (geometry_collection gs) = collection_has_altitudes gs

  pub collection_has_altitudes : {D : Type 0} → GeometryCollection D → Bool
  collection_has_altitudes GeometryCollection.nil = true
  collection_has_altitudes (GeometryCollection.cons g gs) =
      geometry_has_altitudes g && collection_has_altitudes gs

list_eq_self {ℓ} :
    {A : Type ℓ} (eq : A → A → Bool) (p : A → Bool)
    → ((x : A) → eq x x ≡ p x)
    → (xs : List A) → list_eq eq xs xs ≡ every p xs
unfolding list_eq
list_eq_self eq p h [] = refl
list_eq_self eq p h (x ∷ xs) = rw (h x, list_eq_self eq p h xs)

module _ {D : Type 0} ⦃fl : Floating D⦄ (same : (x : D) → fl.eq x x ≡ true) where
  optional_eq_self : (o : Option D) → optional_eq fl.eq o o ≡ is_some o
  unfolding optional_eq
  optional_eq_self none = refl
  optional_eq_self (some x) = same x

  coordinate_eq_self : (c : Coordinate D) → coordinate_eq c c ≡ is_some c.altitude
  unfolding coordinate_eq
  coordinate_eq_self c = rw (same c.latitude, same c.longitude, optional_eq_self c.altitude)

  coordinates_eq_self : (v : CoordinateVector D) → coordinates_eq v v ≡ has_altitudes v
  unfolding coordinates_eq
  coordinates_eq_self v = list_eq_self coordinate_eq _ coordinate_eq_self v.coordinates

  polygon_eq_self : (p : Polygon D) → polygon_eq p p ≡ polygon_has_altitudes p
  unfolding polygon_eq
  polygon_eq_self p = rw (
    coordinates_eq_self p.outer_ring,
    list_eq_self coordinates_eq has_altitudes coordinates_eq_self p.inner_rings,
  )

  mutual
    unfolding geometry_eq geometry_has_altitudes collection_eq collection_has_altitudes

    geometry_self : (g : Geometry D) → geometry_eq g g ≡ geometry_has_altitudes g
    geometry_self invalid = refl
    geometry_self (point c) = coordinate_eq_self c
    geometry_self (multi_point v) = coordinates_eq_self v
    geometry_self (line_string v) = coordinates_eq_self v
    geometry_self (multi_line_string vs) =
        list_eq_self coordinates_eq has_altitudes coordinates_eq_self vs
    geometry_self (polygon p) = polygon_eq_self p
    geometry_self (multi_polygon ps) =
        list_eq_self polygon_eq polygon_has_altitudes polygon_eq_self ps
    geometry_self (geometry_collection gs) = collection_self gs

    collection_self :
        (gs : GeometryCollection D) → collection_eq gs gs ≡ collection_has_altitudes gs
    collection_self GeometryCollection.nil = refl
    collection_self (GeometryCollection.cons g gs) = rw (geometry_self g, collection_self gs)

  -- Where each number is equal to itself, a geometry is equal to itself exactly when each of its
  -- coordinates has an altitude, in collections at every depth.
  pub geometry_eq_self : (g : Geometry D) → geometry_eq g g ≡ geometry_has_altitudes g
  geometry_eq_self g = geometry_self g
