-- ===== src/Core/Airspace/Members.antt =====
-- The union of the details of an airspace, with its types.
use platform_sdk.Base.{ℕ, Bool, true, false, Option, none, some, ◌>>=◌}
use platform_sdk.Core.Airspace.Details.{
  Airport, ControlledAirspace, SpecialUseAirspace, TemporaryFlightRestriction, Wildfire, Heliport,
  PowerPlant,
}

pub data AirspaceType : Type 0 where
  invalid airport controlled_airspace special_use_airspace tfr wildfire park power_plant heliport
        prison school hospital fire emergency :
      AirspaceType

-- The numbers of the enumeration.
unfoldable pub flag : AirspaceType → ℕ
flag invalid = 0
flag airport = 1
flag controlled_airspace = 2
flag special_use_airspace = 4
flag tfr = 8
flag wildfire = 16
flag park = 32
flag power_plant = 64
flag heliport = 128
flag prison = 256
flag school = 512
flag hospital = 1024
flag fire = 2048
flag emergency = 4096

-- The structs that have no fields: copying, comparing and destroying them reads nothing.
unfoldable pub has_fields : AirspaceType → Bool
has_fields invalid = false
has_fields park = false
has_fields prison = false
has_fields school = false
has_fields hospital = false
has_fields fire = false
has_fields emergency = false
has_fields _ = true

-- The member of the union that is alive.
pub data Member (D : Type 0) : Type 0 where
  nothing : Member D
  airport_member : Airport D → Member D
  controlled_airspace_member : ControlledAirspace → Member D
  special_use_airspace_member : SpecialUseAirspace → Member D
  tfr_member : TemporaryFlightRestriction → Member D
  wildfire_member : Wildfire → Member D
  park_member : Unit {0} → Member D
  power_plant_member : PowerPlant → Member D
  heliport_member : Heliport → Member D
  prison_member : Unit {0} → Member D
  school_member : Unit {0} → Member D
  hospital_member : Unit {0} → Member D
  fire_member : Unit {0} → Member D
  emergency_member : Unit {0} → Member D

module _ {D : Type 0} where
  -- Reading a member that is not alive is undefined behaviour.
  unfoldable pub details_for_airport : Member D → Option (Airport D)
  details_for_airport (airport_member x) = some x
  details_for_airport _ = none

  unfoldable pub details_for_controlled_airspace : Member D → Option (ControlledAirspace)
  details_for_controlled_airspace (controlled_airspace_member x) = some x
  details_for_controlled_airspace _ = none

  unfoldable pub details_for_special_use_airspace : Member D → Option (SpecialUseAirspace)
  details_for_special_use_airspace (special_use_airspace_member x) = some x
  details_for_special_use_airspace _ = none

  unfoldable pub details_for_temporary_flight_restriction :
      Member D → Option (TemporaryFlightRestriction)
  details_for_temporary_flight_restriction (tfr_member x) = some x
  details_for_temporary_flight_restriction _ = none

  unfoldable pub details_for_wildfire : Member D → Option (Wildfire)
  details_for_wildfire (wildfire_member x) = some x
  details_for_wildfire _ = none

  unfoldable pub details_for_park : Member D → Option (Unit {0})
  details_for_park (park_member x) = some x
  details_for_park _ = none

  unfoldable pub details_for_power_plant : Member D → Option (PowerPlant)
  details_for_power_plant (power_plant_member x) = some x
  details_for_power_plant _ = none

  unfoldable pub details_for_heliport : Member D → Option (Heliport)
  details_for_heliport (heliport_member x) = some x
  details_for_heliport _ = none

  unfoldable pub details_for_prison : Member D → Option (Unit {0})
  details_for_prison (prison_member x) = some x
  details_for_prison _ = none

  unfoldable pub details_for_school : Member D → Option (Unit {0})
  details_for_school (school_member x) = some x
  details_for_school _ = none

  unfoldable pub details_for_hospital : Member D → Option (Unit {0})
  details_for_hospital (hospital_member x) = some x
  details_for_hospital _ = none

  unfoldable pub details_for_fire : Member D → Option (Unit {0})
  details_for_fire (fire_member x) = some x
  details_for_fire _ = none

  unfoldable pub details_for_emergency : Member D → Option (Unit {0})
  details_for_emergency (emergency_member x) = some x
  details_for_emergency _ = none

  -- The type that `set_details` gives for a member.
  unfoldable pub type_of : Member D → AirspaceType
  type_of nothing = invalid
  type_of (airport_member x) = airport
  type_of (controlled_airspace_member x) = controlled_airspace
  type_of (special_use_airspace_member x) = special_use_airspace
  type_of (tfr_member x) = tfr
  type_of (wildfire_member x) = wildfire
  type_of (park_member x) = park
  type_of (power_plant_member x) = power_plant
  type_of (heliport_member x) = heliport
  type_of (prison_member x) = prison
  type_of (school_member x) = school
  type_of (hospital_member x) = hospital
  type_of (fire_member x) = fire
  type_of (emergency_member x) = emergency

  unfoldable pub is_alive : Member D → Bool
  is_alive nothing = false
  is_alive _ = true

  -- The copy of the member that a type selects, in `set_details` for an airspace.
  unfoldable pub copied : AirspaceType → Member D → Option (Member D)
  copied invalid m = some nothing
  copied airport m = do x ← details_for_airport m; some (airport_member x)
  copied controlled_airspace m = do
    x ← details_for_controlled_airspace m
    some (controlled_airspace_member x)
  copied special_use_airspace m = do
    x ← details_for_special_use_airspace m
    some (special_use_airspace_member x)
  copied tfr m = do x ← details_for_temporary_flight_restriction m; some (tfr_member x)
  copied wildfire m = do x ← details_for_wildfire m; some (wildfire_member x)
  copied park m = some (park_member tt)
  copied power_plant m = do x ← details_for_power_plant m; some (power_plant_member x)
  copied heliport m = do x ← details_for_heliport m; some (heliport_member x)
  copied prison m = some (prison_member tt)
  copied school m = some (school_member tt)
  copied hospital m = some (hospital_member tt)
  copied fire m = some (fire_member tt)
  copied emergency m = some (emergency_member tt)
