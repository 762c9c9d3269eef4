-- ===== src/Core/RuleSet/Names.antt =====
-- Names that are printed are read back.
use platform_sdk.Base.{◌≡◌, refl}
use platform_sdk.Core.Color
use platform_sdk.Core.Color.{Color}
use platform_sdk.Core.RuleSet.FeatureType
use platform_sdk.Core.RuleSet.FeatureType.{FeatureType}
use platform_sdk.Core.RuleSet.Measurement
use platform_sdk.Core.RuleSet.Measurement.{Measurement}
use platform_sdk.Core.RuleSet.MeasureUnit
use platform_sdk.Core.RuleSet.MeasureUnit.{MeasureUnit}
use platform_sdk.Core.RuleSet.Region
use platform_sdk.Core.RuleSet.Region.{Region}
use platform_sdk.Core.RuleSet.SelectionType
use platform_sdk.Core.RuleSet.SelectionType.{SelectionType}
use platform_sdk.Core.RuleSet.RuleStatus
use platform_sdk.Core.RuleSet.RuleStatus.{RuleStatus}

feature_type_lem : (x old : FeatureType) → FeatureType.parse (FeatureType.print x) old ≡ x
unfolding FeatureType.parse FeatureType.print
feature_type_lem FeatureType.boolean old = refl
feature_type_lem FeatureType.floating_point old = refl
feature_type_lem FeatureType.string old = refl
feature_type_lem FeatureType.unknown old = refl

measurement_lem : (x old : Measurement) → Measurement.parse (Measurement.print x) old ≡ x
unfolding Measurement.parse Measurement.print
measurement_lem Measurement.distance old = refl
measurement_lem Measurement.speed old = refl
measurement_lem Measurement.weight old = refl
measurement_lem Measurement.unknown old = refl

measure_unit_lem : (x old : MeasureUnit) → MeasureUnit.parse (MeasureUnit.print x) old ≡ x
unfolding MeasureUnit.parse MeasureUnit.print
measure_unit_lem MeasureUnit.kilograms old = refl
measure_unit_lem MeasureUnit.meters old = refl
measure_unit_lem MeasureUnit.meters_per_sec old = refl
measure_unit_lem MeasureUnit.unknown old = refl

region_lem : (x old : Region) → Region.parse (Region.print x) old ≡ x
unfolding Region.parse Region.print
region_lem Region.national old = refl
region_lem Region.state old = refl
region_lem Region.county old = refl
region_lem Region.city old = refl
region_lem Region.local old = refl

selection_type_lem : (x old : SelectionType) → SelectionType.parse (SelectionType.print x) old ≡ x
unfolding SelectionType.parse SelectionType.print
selection_type_lem SelectionType.optional old = refl
selection_type_lem SelectionType.required old = refl
selection_type_lem SelectionType.pickone old = refl

rule_status_lem : (x old : RuleStatus) → RuleStatus.parse (RuleStatus.print x) old ≡ x
unfolding RuleStatus.parse RuleStatus.print
rule_status_lem RuleStatus.unknown old = refl
rule_status_lem RuleStatus.conflicting old = refl
rule_status_lem RuleStatus.not_conflicting old = refl
rule_status_lem RuleStatus.missing_info old = refl
rule_status_lem RuleStatus.informational old = refl

color_lem : (x old : Color) → Color.parse (Color.print x) old ≡ x
unfolding Color.parse Color.print
color_lem Color.green old = refl
color_lem Color.yellow old = refl
color_lem Color.orange old = refl
color_lem Color.red old = refl

-- For each enumeration of a rule set and for the colors of a status, reading a name that was printed gives the value that was
-- printed, whatever the variable held before.
pub parse-print :
    ((x old : FeatureType) → FeatureType.parse (FeatureType.print x) old ≡ x)
    × ((x old : Measurement) → Measurement.parse (Measurement.print x) old ≡ x)
    × ((x old : MeasureUnit) → MeasureUnit.parse (MeasureUnit.print x) old ≡ x)
    × ((x old : Region) → Region.parse (Region.print x) old ≡ x)
    × ((x old : SelectionType) → SelectionType.parse (SelectionType.print x) old ≡ x)
    × ((x old : RuleStatus) → RuleStatus.parse (RuleStatus.print x) old ≡ x)
    × ((x old : Color) → Color.parse (Color.print x) old ≡ x)
parse-print = (
  feature_type_lem, measurement_lem, measure_unit_lem, region_lem, selection_type_lem,
  rule_status_lem, color_lem,
)
