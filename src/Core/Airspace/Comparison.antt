-- ===== src/Core/Airspace/Comparison.antt =====
-- The comparison of airspaces of different types.
use platform_sdk.Base.{
  Bool, false, ◌≡◌, refl, ◌==◌, not, ◌||◌, is_some, Bool-cases, inl, inr, arith,
}
use platform_sdk.Core.Floating.{Floating}
use platform_sdk.Core.Airspace.{Airspace, members_equal, details_equal, airspace_eq}
use platform_sdk.Core.Airspace.Members.{
  AirspaceType, controlled_airspace, has_fields, flag, is_alive, Member, nothing, airport_member,
  controlled_airspace_member, special_use_airspace_member, tfr_member, wildfire_member, park_member,
  power_plant_member, heliport_member, prison_member, school_member, hospital_member, fire_member,
  emergency_member, type_of, details_for_airport, details_for_controlled_airspace,
  details_for_special_use_airspace, details_for_temporary_flight_restriction, details_for_wildfire,
  details_for_park, details_for_power_plant, details_for_heliport, details_for_prison,
  details_for_school, details_for_hospital, details_for_fire, details_for_emergency,
}

-- The types whose structs are compared by their fields.
abbrev pub compares : AirspaceType → Bool
compares controlled_airspace = false
compares t = has_fields t

module _ {D : Type 0} where
  -- The member that the type selects is alive.
  abbrev pub IsSound : Airspace D → Type 0
  IsSound a = a.type ≡ type_of a.details

module _ {D : Type 0} ⦃fl : Floating D⦄ where
  details_equal_lem :
      (m n : Member D)
      → is_some (details_equal (type_of m) m n)
        ≡ (not (compares (type_of m)) || flag (type_of m) == flag (type_of n))
  unfolding has_fields details_equal type_of is_alive flag details_for_airport
      details_for_controlled_airspace details_for_special_use_airspace
      details_for_temporary_flight_restriction details_for_wildfire details_for_park
      details_for_power_plant details_for_heliport details_for_prison details_for_school
      details_for_hospital details_for_fire details_for_emergency
  details_equal_lem nothing n = refl
  details_equal_lem (airport_member x) n = ground arith
  details_equal_lem (controlled_airspace_member x) n = ground arith
  details_equal_lem (special_use_airspace_member x) n = ground arith
  details_equal_lem (tfr_member x) n = ground arith
  details_equal_lem (wildfire_member x) n = ground arith
  details_equal_lem (park_member x) n = ground arith
  details_equal_lem (power_plant_member x) n = ground arith
  details_equal_lem (heliport_member x) n = ground arith
  details_equal_lem (prison_member x) n = ground arith
  details_equal_lem (school_member x) n = ground arith
  details_equal_lem (hospital_member x) n = ground arith
  details_equal_lem (fire_member x) n = ground arith
  details_equal_lem (emergency_member x) n = ground arith

  -- Where the union of the left airspace has the member of its type, the comparison is defined
  -- exactly if another member differs, or the type of the left airspace is not one whose structs are
  -- compared by fields, or both unions have members of one type. Compared by fields are airports,
  -- special use airspaces, flight restrictions, wildfires, power plants and heliports.
  pub airspace_eq_lem :
      (a b : Airspace D)
      → IsSound a
      → is_some (airspace_eq a b) ≡ (
          not (members_equal a b)
          || not (compares a.type)
          || flag (type_of a.details) == flag (type_of b.details))
  unfolding airspace_eq
  airspace_eq_lem a b sound = elim (Bool-cases (members_equal a b)) [
    | inl same ↦ rw (same, sound) (details_equal_lem a.details b.details)
    | inr differ ↦ rw differ refl
  ]
