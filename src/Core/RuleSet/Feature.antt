-- ===== src/Core/RuleSet/Feature.antt =====
-- src/airmap/ruleset.cpp: RuleSet::Feature::Value, a tagged union, and the values of a feature.
pub mod Assignment
use platform_sdk.Base.{ℕ, ◌==◌, String, Bool, true, false, Option, none, some, ◌>>=◌, if◌then◌else◌}
use platform_sdk.Core.RuleSet.FeatureType.{FeatureType, unknown, boolean, floating_point, string}

-- The member of the union that was constructed last. A string that was destroyed is no value.
pub data Detail (D : Type 0) : Type 0 where
  b : Bool → Detail D
  d : D → Detail D
  s : String → Detail D
  destroyed : Detail D

pub record Value (D : Type 0) : Type 0 where
  pub type : FeatureType
  pub detail : Detail D

module _ {D : Type 0} where
  -- The members of the union, undefined where another one is there.
  unfoldable pub read_b : Value D → Option Bool
  read_b v = elim v.detail [ b x ↦ some x | _ ↦ none ]

  unfoldable pub read_d : Value D → Option D
  read_d v = elim v.detail [ d x ↦ some x | _ ↦ none ]

  unfoldable pub read_s : Value D → Option String
  read_s v = elim v.detail [ s x ↦ some x | _ ↦ none ]

  -- The value that the default constructor makes.
  unfoldable pub initial : Value D
  initial = record { type = unknown; detail = b false }

  unfoldable pub construct_boolean : Bool → Value D → Value D
  construct_boolean x v = record { type = boolean; detail = b x }

  unfoldable pub construct_floating_point : D → Value D → Value D
  construct_floating_point x v = record { type = floating_point; detail = d x }

  unfoldable pub construct_string : String → Value D → Value D
  construct_string x v = record { type = string; detail = s x }

  unfoldable pub destroy : FeatureType → Detail D → Detail D
  destroy string m = destroyed
  destroy _ m = m

  unfoldable pub destruct : Value D → Value D
  destruct v = record { type = unknown; detail = destroy v.type v.detail }

  -- The `switch` of `construct(const Value&)`.
  unfoldable pub construct_as : FeatureType → Value D → Value D → Option (Value D)
  construct_as boolean other v = do x ← read_b other; some (construct_boolean x v)
  construct_as floating_point other v = do x ← read_d other; some (construct_floating_point x v)
  construct_as string other v = do x ← read_s other; some (construct_string x v)
  construct_as unknown other v = some (destruct v)

  unfoldable pub construct : Value D → Value D → Option (Value D)
  construct other v = do
    made ← construct_as other.type other v
    some (record made { type = other.type })

  abbrev pub put : ℕ → Value D → (ℕ → Value D) → ℕ → Value D
  put i v st k = if k == i then v else st k

  -- `*i = *j` for two addresses, which may be the same.
  unfoldable pub assign : ℕ → ℕ → (ℕ → Value D) → Option (ℕ → Value D)
  assign i j st = do
    let st' = put i (destruct (st i)) st
    made ← construct (st' j) (st' i)
    some (put i made st')

  -- `Feature::value`, with the type of the feature.
  unfoldable pub value_of_boolean : FeatureType → Bool → Option (Value D)
  value_of_boolean boolean x = some (construct_boolean x initial)
  value_of_boolean _ x = none

  unfoldable pub value_of_floating_point : FeatureType → D → Option (Value D)
  value_of_floating_point floating_point x = some (construct_floating_point x initial)
  value_of_floating_point _ x = none

  unfoldable pub value_of_string : FeatureType → String → Option (Value D)
  value_of_string boolean x = some (construct_string x initial)
  value_of_string _ x = none
