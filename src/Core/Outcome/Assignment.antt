-- ===== src/Core/Outcome/Assignment.antt =====
-- include/airmap/outcome.h: the members of an outcome's union and the assignment of outcomes.
use platform_sdk.Base.{
  ℕ, ◌==◌, ◌≡◌, refl, Bool, true, false, Option, none, some, ◌>>=◌, if◌then◌else◌, Bool-cases, inl,
  inr, arith,
}

pub data OutcomeType : Type 0 where
  value error : OutcomeType

-- The member of the union that is alive.
pub data Member (V E : Type 0) : Type 0 where
  value_member : V → Member V E
  error_member : E → Member V E
  destroyed : Member V E

pub record Cell (V E : Type 0) : Type 0 where
  pub type : OutcomeType
  pub member : Member V E

module _ {V E : Type 0} where
  -- The `switch` of the copy: a member that is not alive cannot be copied, undefined behaviour.
  unfoldable pub copy : OutcomeType → Member V E → Option (Member V E)
  copy value (value_member v) = some (value_member v)
  copy error (error_member e) = some (error_member e)
  copy _ _ = none

  -- The `switch` of the destructor.
  unfoldable pub destroy : OutcomeType → Member V E → Option (Member V E)
  destroy value (value_member v) = some destroyed
  destroy error (error_member e) = some destroyed
  destroy _ _ = none

  abbrev pub put : ℕ → Cell V E → (ℕ → Cell V E) → ℕ → Cell V E
  put i c st k = if k == i then c else st k

  -- `*i = *j` for two addresses, which may be the same.
  unfoldable pub assign : ℕ → ℕ → (ℕ → Cell V E) → Option (ℕ → Cell V E)
  assign i j st = do
    gone ← destroy (st i).type (st i).member
    let st' = put i (record { type = (st i).type; member = gone }) st
    made ← copy (st' j).type (st' j).member
    some (put i (record { type = (st' j).type; member = made }) st')

  -- The member that the type selects is alive.
  abbrev pub agrees : OutcomeType → Member V E → Bool
  agrees value (value_member v) = true
  agrees error (error_member e) = true
  agrees _ _ = false

  abbrev pub IsSound : Cell V E → Type 0
  IsSound c = agrees c.type c.member ≡ true

  -- What an assignment leaves.
  abbrev pub IsAssigned : ℕ → ℕ → (ℕ → Cell V E) → Option (ℕ → Cell V E) → Type 0
  IsAssigned i j st none = (j == i) ≡ true
  IsAssigned i j st (some st') =
      ((j == i) ≡ false) × ((k : ℕ) → st' k ≡ (if k == i then st j else st k))

  destroy_lem :
      (t : OutcomeType) (m : Member V E) → agrees t m ≡ true → destroy t m ≡ some destroyed
  unfolding destroy
  destroy_lem t m h = ground arith

  copy_lem : (t : OutcomeType) (m : Member V E) → agrees t m ≡ true → copy t m ≡ some m
  unfolding copy
  copy_lem t m h = ground arith

  copy_destroyed : (t : OutcomeType) (m : Member V E) → m ≡ destroyed → copy t m ≡ none
  unfolding copy
  copy_destroyed t m h = ground arith

  -- Where every outcome is sound: an assignment between two different outcomes makes the one what
  -- the other is and leaves all others alone, and an assignment of an outcome to itself copies a
  -- member that was just destroyed, which is undefined behaviour.
  pub assign-IsAssigned :
      (i j : ℕ) (st : ℕ → Cell V E) → ((k : ℕ) → IsSound (st k)) → IsAssigned i j st (assign i j st)
  unfolding assign
  assign-IsAssigned i j st h = elim (Bool-cases (j == i)) [
    | inl q ↦
        rw
          (
            destroy_lem (st i).type (st i).member (h i),
            q,
            copy_destroyed (st i).type destroyed refl,
          )
          q
    | inr q ↦
        rw
          (destroy_lem (st i).type (st i).member (h i), q, copy_lem (st j).type (st j).member (h j))
          (q, λ k. ground arith)
  ]
