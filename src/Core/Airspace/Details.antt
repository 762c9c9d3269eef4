-- ===== src/Core/Airspace/Details.antt =====
-- The structs of include/airmap/airspace.h and their comparisons in src/airmap/airspace.cpp. A struct
-- without members is `Unit`, an enumeration without names a number.
use platform_sdk.Base.{ℕ, String, Bool, ◌&&◌, ◌==◌, List, str_eq}
use platform_sdk.Core.Floating.{Floating}
use platform_sdk.Core.Geometry.{Geometry}
use platform_sdk.Core.Geometry.Equality.{list_eq, geometry_eq}
use platform_sdk.Core.Error.Equality.{bool_eq}

pub record Runway (D : Type 0) : Type 0 where
  pub name : String
  pub length : D
  pub bearing : D

-- `Use` has one name.
pub record Airport (D : Type 0) : Type 0 where
  pub iata : String
  pub icao : String
  pub paved : Bool
  pub phone : String
  pub tower : Bool
  pub runways : List (Runway D)
  pub elevation : D
  pub longest_runway : D
  pub instrument_approach_procedure : Bool
  pub usage : ℕ

pub record ControlledAirspace : Type 0 where
  pub airspace_classification : String

pub record SpecialUseAirspace : Type 0 where
  pub type : ℕ

pub record TemporaryFlightRestriction : Type 0 where
  pub url : String
  pub type : ℕ
  pub reason : String

pub record Wildfire : Type 0 where
  pub effective_date : String

pub record Heliport : Type 0 where
  pub faa_id : String
  pub phone : String
  pub usage : ℕ

pub record PowerPlant : Type 0 where
  pub technology : String
  pub code : ℕ

pub record RelatedGeometry (D : Type 0) : Type 0 where
  pub id : String
  pub geometry : Geometry D

-- `Rule` of include/airmap/rule.h.
pub record Rule : Type 0 where
  pub type : ℕ
  pub id : String
  pub name : String
  pub description : String
  pub jurisdiction : String

unfoldable pub rule_eq : Rule → Rule → Bool
rule_eq a b =
    a.type == b.type
    && str_eq a.id b.id
    && str_eq a.name b.name
    && str_eq a.description b.description
    && str_eq a.jurisdiction b.jurisdiction

unfoldable pub special_use_eq : SpecialUseAirspace → SpecialUseAirspace → Bool
special_use_eq a b = a.type == b.type

unfoldable pub restriction_eq : TemporaryFlightRestriction → TemporaryFlightRestriction → Bool
restriction_eq a b = str_eq a.url b.url && a.type == b.type && str_eq a.reason b.reason

unfoldable pub wildfire_eq : Wildfire → Wildfire → Bool
wildfire_eq a b = str_eq a.effective_date b.effective_date

unfoldable pub heliport_eq : Heliport → Heliport → Bool
heliport_eq a b = str_eq a.faa_id b.faa_id && str_eq a.phone b.phone && a.usage == b.usage

unfoldable pub power_plant_eq : PowerPlant → PowerPlant → Bool
power_plant_eq a b = str_eq a.technology b.technology && a.code == b.code

module _ {D : Type 0} ⦃fl : Floating D⦄ where
  unfoldable pub runway_eq : Runway D → Runway D → Bool
  runway_eq a b = str_eq a.name b.name && fl.eq a.length b.length && fl.eq a.bearing b.bearing

  unfoldable pub airport_eq : Airport D → Airport D → Bool
  airport_eq a b =
      str_eq a.iata b.iata
      && str_eq a.icao b.icao
      && bool_eq a.paved b.paved
      && str_eq a.phone b.phone
      && bool_eq a.tower b.tower
      && list_eq runway_eq a.runways b.runways
      && fl.eq a.elevation b.elevation
      && fl.eq a.longest_runway b.longest_runway
      && bool_eq a.instrument_approach_procedure b.instrument_approach_procedure
      && a.usage == b.usage

  unfoldable pub related_eq : String × RelatedGeometry D → String × RelatedGeometry D → Bool
  related_eq (j, a) (k, b) = str_eq j k && str_eq a.id b.id && geometry_eq a.geometry b.geometry
