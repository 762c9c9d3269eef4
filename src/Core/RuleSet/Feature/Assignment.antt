-- ===== src/Core/RuleSet/Feature/Assignment.antt =====
-- What the assignment of a feature's value does, with and without aliasing.
use platform_sdk.Base.{
  ℕ, ◌==◌, ◌≡◌, ◌≢◌, refl, String, Bool, true, false, Option, none, some, ◌>>=◌, if◌then◌else◌,
  arith,
}
use platform_sdk.Core.RuleSet.FeatureType.{FeatureType, unknown, boolean, floating_point, string}
use platform_sdk.Core.RuleSet.Feature.{
  Detail, b, d, s, Value, read_b, read_d, read_s, construct_boolean, construct_floating_point,
  construct_string, destroy, destruct, construct_as, construct, assign, put, value_of_string,
}

module _ {D : Type 0} where
  -- The member that the type selects is there.
  abbrev pub agrees : FeatureType → Detail D → Bool
  agrees unknown m = true
  agrees boolean (b x) = true
  agrees floating_point (d x) = true
  agrees string (s x) = true
  agrees _ _ = false

  abbrev pub IsSound : Value D → Type 0
  IsSound v = agrees v.type v.detail ≡ true

  -- What a reader sees of a value: its type, and the member that the type selects.
  abbrev pub seen_as : FeatureType → Detail D → Option (Detail D)
  seen_as unknown m = none
  seen_as _ m = some m

  abbrev pub seen : Value D → Option (Detail D)
  seen v = seen_as v.type v.detail

  -- After `construct`, the type and what a reader sees are the other's.
  abbrev pub Copied : Value D → Option (Value D) → Type 0
  Copied other none = ⊥
  Copied other (some w) = (seen w ≡ seen other) × (w.type ≡ other.type) × IsSound w

  construct-Copied_as :
      (t : FeatureType) (m : Detail D) (v : Value D)
      → agrees t m ≡ true
      → Copied (record { type = t; detail = m }) (construct (record { type = t; detail = m }) v)
  unfolding construct construct_as construct_boolean construct_floating_point construct_string
      destruct destroy read_b read_d read_s
  construct-Copied_as unknown m v h = (refl, refl, refl)
  construct-Copied_as boolean (b x) v h = (refl, refl, refl)
  construct-Copied_as floating_point (d x) v h = (refl, refl, refl)
  construct-Copied_as string (s x) v h = (refl, refl, refl)
  construct-Copied_as _ _ v h = absurd (ground arith)

  construct-Copied : (other v : Value D) → IsSound other → Copied other (construct other v)
  construct-Copied other v h = construct-Copied_as other.type other.detail v h

  -- What each object shows after the assignment of the object `j` to the object `i`.
  abbrev pub Assigned : ℕ → ℕ → (ℕ → Value D) → Option (ℕ → Value D) → Type 0
  Assigned i j st none = ⊥
  Assigned i j st (some st') =
      (k : ℕ)
      → (seen (st' k) ≡ (if k == i then (if j == i then none else seen (st j)) else seen (st k)))
        × IsSound (st' k)

  -- Where the members agree with the types, an assignment returns and keeps it so. The object
  -- assigned to then shows what the other one shows, and every other object what it showed before;
  -- but an object assigned to itself is left with no value.
  pub assign-Assigned :
      (i j : ℕ) (st : ℕ → Value D) → ((k : ℕ) → IsSound (st k)) → Assigned i j st (assign i j st)
  unfolding assign destruct
  assign-Assigned i j st h =
      let st' = put i (destruct (st i)) st in
      from_construct (construct (st' j) (st' i))
        (construct-Copied (st' j) (st' i) (ground (arith, h j)))
    where
      from_construct :
          (o : Option (Value D))
          → Copied (put i (destruct (st i)) st j) o
          → Assigned i j st (o >>= λ w. some (put i w (put i (destruct (st i)) st)))
      from_construct none c = absurd c
      from_construct (some w) c = λ k. (ground (arith, h k), ground (arith, h k))

  -- A value that a feature makes of a string never has the type of that feature; so a feature for
  -- strings makes none.
  pub value_of_string_lem :
      (t : FeatureType) (x : String) {v : Value D} → value_of_string t x ≡ some v → v.type ≢ t
  unfolding value_of_string construct_string
  value_of_string_lem unknown x e = ground arith
  value_of_string_lem boolean x e = ground arith
  value_of_string_lem floating_point x e = ground arith
  value_of_string_lem string x e = ground arith
