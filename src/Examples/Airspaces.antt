-- ===== src/Examples/Airspaces.antt =====
-- Airspaces that are compared and assigned.
use platform_sdk.Base.{ℕ, ◌≡◌, refl, ◌==◌, true, false, none, some, [], if◌then◌else◌, is_some}
use platform_sdk.Core.Geometry.{invalid}
use platform_sdk.Core.Airspace.Members
use platform_sdk.Core.Geometry.Equality.{geometry_eq, list_eq}
use platform_sdk.Core.Airspace.{
  details_equal, Airspace, set_details, members_equal, airspace_eq, assign,
}
use platform_sdk.Core.Airspace.Members.{
  details_for_wildfire, park, wildfire, wildfire_member, park_member, nothing, type_of, is_alive,
  has_fields, flag,
}
use platform_sdk.Core.Airspace.Comparison.{airspace_eq_lem}
use platform_sdk.Core.Airspace.Assignment.{IsAssigned, assign-IsAssigned_airspace}
use platform_sdk.Examples.Fixtures.{whole_floating}

abbrev unknown : Airspace ℕ
unknown = record {
  id = "a";
  name = "A";
  type = Members.AirspaceType.invalid;
  country = "";
  state = "";
  city = "";
  last_updated = 0;
  geometry = invalid;
  related_geometries = [];
  rules = [];
  details = nothing;
  lost = 0;
}

abbrev green : Airspace ℕ
green = record unknown { type = park; details = park_member tt }

abbrev burning : Airspace ℕ
burning = record unknown {
  type = wildfire;
  details = wildfire_member (record { effective_date = "today" });
}

airspace_eq_lem_example : is_some (airspace_eq burning green) ≡ false
unfolding type_of members_equal geometry_eq list_eq has_fields flag
airspace_eq_lem_example = airspace_eq_lem burning green refl

abbrev places : ℕ → Airspace ℕ
places k = if k == 1 then green else if k == 2 then burning else unknown

assign-IsAssigned_airspace_example : IsAssigned 1 2 places (assign 1 2 places)
unfolding type_of
assign-IsAssigned_airspace_example = assign-IsAssigned_airspace 1 2 places refl refl

-- A park is equal to a wildfire, which is not to be compared with it.
one_way : airspace_eq green burning ≡ some true × (airspace_eq burning green ≡ none)
unfolding airspace_eq members_equal geometry_eq list_eq details_equal details_for_wildfire
one_way = (refl, refl)

-- The details from before are not destroyed.
overwritten : (set_details (park_member tt) burning).lost ≡ 1
unfolding set_details is_alive
overwritten = refl
