-- ===== src/Core/Airspace/Assignment.antt =====
-- The assignment of airspaces.
use platform_sdk.Base.{
  ℕ, ◌==◌, ◌≡◌, refl, sym, ap, ◌∙◌, ◌&&◌, true, false, Option, none, some, ◌>>=◌, if◌then◌else◌,
  Bool-cases, inl, inr, arith,
}
use platform_sdk.Core.Geometry.{invalid}
use platform_sdk.Core.Geometry.Assignment.{assign_lem as geometry_assign_lem}
use platform_sdk.Core.Airspace.{
  Airspace, set_details, set_details_from, reset, with_members, write, assign,
}
use platform_sdk.Core.Airspace.Members.{
  is_alive, Member, nothing, airport_member, controlled_airspace_member,
  special_use_airspace_member, tfr_member, wildfire_member, park_member, power_plant_member,
  heliport_member, prison_member, school_member, hospital_member, fire_member, emergency_member,
  type_of, has_fields, copied, details_for_airport, details_for_controlled_airspace,
  details_for_special_use_airspace, details_for_temporary_flight_restriction, details_for_wildfire,
  details_for_park, details_for_power_plant, details_for_heliport, details_for_prison,
  details_for_school, details_for_hospital, details_for_fire, details_for_emergency,
}
use platform_sdk.Core.Airspace.Comparison.{IsSound}

module _ {D : Type 0} where
  copied_lem : (m : Member D) → copied (type_of m) m ≡ some m
  unfolding copied type_of details_for_airport details_for_controlled_airspace
      details_for_special_use_airspace details_for_temporary_flight_restriction details_for_wildfire
      details_for_park details_for_power_plant details_for_heliport details_for_prison
      details_for_school details_for_hospital details_for_fire details_for_emergency
  copied_lem nothing = refl
  copied_lem (airport_member x) = refl
  copied_lem (controlled_airspace_member x) = refl
  copied_lem (special_use_airspace_member x) = refl
  copied_lem (tfr_member x) = refl
  copied_lem (wildfire_member x) = refl
  copied_lem (park_member x) = refl
  copied_lem (power_plant_member x) = refl
  copied_lem (heliport_member x) = refl
  copied_lem (prison_member x) = refl
  copied_lem (school_member x) = refl
  copied_lem (hospital_member x) = refl
  copied_lem (fire_member x) = refl
  copied_lem (emergency_member x) = refl

  -- The copy of a member that was destroyed.
  copied_nothing :
      (m : Member D)
      → copied {D = D} (type_of m) nothing ≡ (if has_fields (type_of m) then none else some m)
  unfolding copied type_of has_fields details_for_airport details_for_controlled_airspace
      details_for_special_use_airspace details_for_temporary_flight_restriction details_for_wildfire
      details_for_park details_for_power_plant details_for_heliport details_for_prison
      details_for_school details_for_hospital details_for_fire details_for_emergency
  copied_nothing nothing = refl
  copied_nothing (airport_member x) = refl
  copied_nothing (controlled_airspace_member x) = refl
  copied_nothing (special_use_airspace_member x) = refl
  copied_nothing (tfr_member x) = refl
  copied_nothing (wildfire_member x) = refl
  copied_nothing (park_member x) = refl
  copied_nothing (power_plant_member x) = refl
  copied_nothing (heliport_member x) = refl
  copied_nothing (prison_member x) = refl
  copied_nothing (school_member x) = refl
  copied_nothing (hospital_member x) = refl
  copied_nothing (fire_member x) = refl
  copied_nothing (emergency_member x) = refl

  dead_lem : (m : Member D) → is_alive m ≡ false → m ≡ nothing
  unfolding is_alive
  dead_lem nothing h = refl
  dead_lem (airport_member x) h = ground arith
  dead_lem (controlled_airspace_member x) h = ground arith
  dead_lem (special_use_airspace_member x) h = ground arith
  dead_lem (tfr_member x) h = ground arith
  dead_lem (wildfire_member x) h = ground arith
  dead_lem (park_member x) h = ground arith
  dead_lem (power_plant_member x) h = ground arith
  dead_lem (heliport_member x) h = ground arith
  dead_lem (prison_member x) h = ground arith
  dead_lem (school_member x) h = ground arith
  dead_lem (hospital_member x) h = ground arith
  dead_lem (fire_member x) h = ground arith
  dead_lem (emergency_member x) h = ground arith

  sound-copied : (a : Airspace D) → IsSound a → copied a.type a.details ≡ some a.details
  sound-copied a sound = ap (λ t. copied t a.details) sound ∙ copied_lem a.details

  small_lem :
      (m : Member D)
      → has_fields (type_of m) ≡ false
      → (if has_fields (type_of m) then m else nothing) ≡ nothing
  small_lem m h = rw h refl

  reset_lem : (a : Airspace D) → IsSound a → reset a ≡ some (record a { details = nothing })
  unfolding reset
  reset_lem a sound = elim (Bool-cases (has_fields a.type)) [
    | inl fields ↦ rw (fields, sound-copied a sound) refl
    | inr bare ↦
        let e : has_fields (type_of a.details) ≡ false = ap has_fields (sym sound) ∙ bare in
        rw (bare, e) refl
  ]

  -- The members of the other airspace, and the union, where the airspace at hand has none.
  set_details_lem :
      (b a : Airspace D)
      → IsSound b
      → a.type ≡ b.type
      → a.details ≡ nothing
      → set_details_from b a ≡ some (record a { details = b.details })
  unfolding set_details_from set_details is_alive
  set_details_lem b a sound same empty = elim (Bool-cases (is_alive b.details)) [
    | inl alive ↦ rw (sound-copied b sound, alive, empty, same) refl
    | inr dead ↦
        let gone : b.details ≡ nothing = dead_lem b.details dead in
        rw (sound-copied b sound, dead, ← same)
          (ap (λ m. some (record a { details = m })) (empty ∙ sym gone))
  ]

  -- An airspace without its member, which is set from itself.
  self_lem :
      (m : Member D) (a : Airspace D)
      → a.type ≡ type_of m
      → a.details ≡ nothing
      → set_details_from a a
        ≡ (if has_fields (type_of m) then none else some (record a { details = m }))
  unfolding set_details_from set_details is_alive
  self_lem m a sound empty =
      let got = copied_nothing m in
      elim (Bool-cases (has_fields (type_of m))) [
        | inl fields ↦ rw (fields, sound, empty, rw fields at got) refl
        | inr bare ↦ elim (Bool-cases (is_alive m)) [
          | inl alive ↦ rw (bare, sound, empty, rw bare at got, alive) refl
          | inr dead ↦
              rw (bare, sound, empty, rw bare at got, dead)
                (ap (λ n. some (record a { type = type_of m; details = n }))
                  (sym (dead_lem m dead)))
        ]
      ]

  -- What an assignment leaves. An airspace keeps its count of members lost.
  abbrev pub IsAssigned : ℕ → ℕ → (ℕ → Airspace D) → Option (ℕ → Airspace D) → Type 0
  IsAssigned i j st none = (j == i && has_fields (st i).type) ≡ true
  IsAssigned i j st (some st') =
      ((j == i && has_fields (st i).type) ≡ false)
      × ((k : ℕ)
          → st' k ≡ (
              if k == i
              then (if j == i
                  then record (st i) { geometry = invalid }
                  else record (st j) { lost = (st i).lost })
              else st k))

  abbrev emptied : ℕ → (ℕ → Airspace D) → ℕ → Airspace D
  emptied i st = write i (record (st i) { details = nothing }) st

  with_other :
      (i j : ℕ) (st : ℕ → Airspace D)
      → (j == i) ≡ false
      → with_members i j (emptied i st) ≡ record (st j) { details = nothing; lost = (st i).lost }
  unfolding with_members
  with_other i j st other =
      let here : (i == i) ≡ true = ground arith in
      let e = rw (here, other) at (geometry_assign_lem i j i (λ k. (emptied i st k).geometry)) in
      rw (e, here, other) refl

  with_self :
      (i : ℕ) (st : ℕ → Airspace D)
      → with_members i i (emptied i st) ≡ record (st i) { geometry = invalid; details = nothing }
  unfolding with_members
  with_self i st =
      let here : (i == i) ≡ true = ground arith in
      let e = rw here at (geometry_assign_lem i i i (λ k. (emptied i st k).geometry)) in
      rw (e, here) refl

  made-IsAssigned :
      (i j : ℕ) (st : ℕ → Airspace D)
      → IsSound (st i)
      → IsSound (st j)
      → IsAssigned i j st (
          let st'' = write i (with_members i j (emptied i st)) (emptied i st) in
          set_details_from (st'' j) (st'' i) >>= λ made. some (write i made st''))
  made-IsAssigned i j st si sj =
      let here : (i == i) ≡ true = ground arith in
      elim (Bool-cases (j == i)) [
        | inr other ↦
            rw
              (
                with_other i j st other,
                here,
                other,
                set_details_lem (st j) (record (st j) { details = nothing; lost = (st i).lost }) sj
                    refl refl,
              )
              (rw other refl, λ k. ground arith)
        | inl same ↦
            let e : j ≡ i = ground arith in
            elim (Bool-cases (has_fields (st i).type)) [
              | inl fields ↦
                  rw
                    (
                      e,
                      with_self i st,
                      here,
                      self_lem (st i).details
                          (record (st i) { geometry = invalid; details = nothing }) si refl,
                      ← si,
                      fields,
                    )
                    (rw (here, fields) refl)
              | inr bare ↦
                  rw
                    (
                      e,
                      with_self i st,
                      here,
                      self_lem (st i).details
                          (record (st i) { geometry = invalid; details = nothing }) si refl,
                      ← si,
                      bare,
                    )
                    (rw (here, bare) refl, λ k. ground arith)
            ]
      ]

  -- Where the unions of both airspaces have the members of their types: an assignment makes the one
  -- what the other is, with no member lost, and leaves all others alone. But of an airspace that is
  -- assigned to itself the geometry becomes invalid, and if its type has a struct with fields, a member
  -- that was just destroyed is copied, which is undefined behaviour.
  pub assign-IsAssigned_airspace :
      (i j : ℕ) (st : ℕ → Airspace D)
      → IsSound (st i)
      → IsSound (st j)
      → IsAssigned i j st (assign i j st)
  unfolding assign
  assign-IsAssigned_airspace i j st si sj = rw (reset_lem (st i) si) (made-IsAssigned i j st si sj)
