-- ===== src/Core/Airspace.antt =====
-- include/airmap/airspace.h and src/airmap/airspace.cpp: an airspace, the union of its details, its
-- assignment and its comparison.
pub mod Details
pub mod Members
pub mod Assignment
pub mod Comparison
use platform_sdk.Base.{
  ℕ, suc, ◌==◌, String, Bool, true, false, ◌&&◌, Option, none, some, ◌>>=◌, List, [], str_eq,
  if◌then◌else◌,
}
use platform_sdk.Core.Floating.{Floating}
use platform_sdk.Core.Geometry.{Geometry}
use platform_sdk.Core.Geometry.Assignment.{assign as geometry_assign}
use platform_sdk.Core.Geometry.Equality.{list_eq, geometry_eq}
use Details.{
  Airport, ControlledAirspace, SpecialUseAirspace, TemporaryFlightRestriction, Wildfire, Heliport,
  PowerPlant, RelatedGeometry, Rule, rule_eq, special_use_eq, restriction_eq, wildfire_eq,
  heliport_eq, power_plant_eq, airport_eq, related_eq,
}
use Members.{
  AirspaceType, invalid, airport, controlled_airspace, special_use_airspace, tfr, wildfire, park,
  power_plant, heliport, prison, school, hospital, fire, emergency, Member, nothing,
  details_for_airport, details_for_controlled_airspace, details_for_special_use_airspace,
  details_for_temporary_flight_restriction, details_for_wildfire, details_for_park,
  details_for_power_plant, details_for_heliport, details_for_prison, details_for_school,
  details_for_hospital, details_for_fire, details_for_emergency, type_of, is_alive, has_fields,
  copied,
}

-- A map has its entries in the order of its keys. `lost` counts the members that were overwritten
-- and never destroyed.
pub record Airspace (D : Type 0) : Type 0 where
  pub id : String
  pub name : String
  pub type : AirspaceType
  pub country : String
  pub state : String
  pub city : String
  pub last_updated : ℕ
  pub geometry : Geometry D
  pub related_geometries : List (String × RelatedGeometry D)
  pub rules : List Rule
  pub details : Member D
  pub lost : ℕ

module _ {D : Type 0} where
  -- The overloads of `set_details` for a struct. What was alive is not destroyed.
  unfoldable pub set_details : Member D → Airspace D → Airspace D
  set_details m a = record a {
    type = type_of m;
    details = m;
    lost = if is_alive a.details then suc a.lost else a.lost;
  }

  -- For a type that selects no member, the union stays as it is.
  unfoldable pub set_details_from : Airspace D → Airspace D → Option (Airspace D)
  set_details_from detail a = do
    m ← copied detail.type detail.details
    some (record (if is_alive m then set_details m a else a) { type = detail.type })

  -- `reset`: the destructor of the member that the type selects. Without fields it does nothing, and
  -- a struct without fields is gone with its type.
  unfoldable pub reset : Airspace D → Option (Airspace D)
  reset a =
      if has_fields a.type
      then (do m ← copied a.type a.details; some (record a { details = nothing }))
      else some
          (record a { details = if has_fields (type_of a.details) then a.details else nothing })

  abbrev pub write : ℕ → Airspace D → (ℕ → Airspace D) → ℕ → Airspace D
  write i a st k = if k == i then a else st k

  -- The assignments of the members other than the union, the type among them, for `*i = *j`.
  unfoldable pub with_members : ℕ → ℕ → (ℕ → Airspace D) → Airspace D
  with_members i j st = record (st j) {
    geometry = geometry_assign i j (λ k. (st k).geometry) i;
    details = (st i).details;
    lost = (st i).lost;
  }

  -- `*i = *j` for two addresses, which may be the same.
  unfoldable pub assign : ℕ → ℕ → (ℕ → Airspace D) → Option (ℕ → Airspace D)
  assign i j st = do
    gone ← reset (st i)
    let st' = write i gone st
    let st'' = write i (with_members i j st') st'
    made ← set_details_from (st'' j) (st'' i)
    some (write i made st'')

module _ {D : Type 0} ⦃fl : Floating D⦄ where
  unfoldable pub members_equal : Airspace D → Airspace D → Bool
  members_equal a b =
      str_eq a.id b.id
      && str_eq a.name b.name
      && str_eq a.country b.country
      && str_eq a.state b.state
      && str_eq a.city b.city
      && a.last_updated == b.last_updated
      && geometry_eq a.geometry b.geometry
      && list_eq related_eq a.related_geometries b.related_geometries
      && list_eq rule_eq a.rules b.rules

  -- The `switch` of `operator==`.
  unfoldable pub details_equal : AirspaceType → Member D → Member D → Option Bool
  details_equal invalid m n = some true
  details_equal airport m n = do
    x ← details_for_airport m
    y ← details_for_airport n
    some (airport_eq x y)
  details_equal controlled_airspace m n = some true
  details_equal special_use_airspace m n = do
    x ← details_for_special_use_airspace m
    y ← details_for_special_use_airspace n
    some (special_use_eq x y)
  details_equal tfr m n = do
    x ← details_for_temporary_flight_restriction m
    y ← details_for_temporary_flight_restriction n
    some (restriction_eq x y)
  details_equal wildfire m n = do
    x ← details_for_wildfire m
    y ← details_for_wildfire n
    some (wildfire_eq x y)
  details_equal park m n = some true
  details_equal power_plant m n = do
    x ← details_for_power_plant m
    y ← details_for_power_plant n
    some (power_plant_eq x y)
  details_equal heliport m n = do
    x ← details_for_heliport m
    y ← details_for_heliport n
    some (heliport_eq x y)
  details_equal prison m n = some true
  details_equal school m n = some true
  details_equal hospital m n = some true
  details_equal fire m n = some true
  details_equal emergency m n = some true

  unfoldable pub airspace_eq : Airspace D → Airspace D → Option Bool
  airspace_eq a b =
      if members_equal a b then details_equal a.type a.details b.details else some false
