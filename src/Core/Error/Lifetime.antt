-- ===== src/Core/Error/Lifetime.antt =====
-- src/airmap/error.cpp: how an Error::Value constructs and destroys the members of its union.
use platform_sdk.Base.{ℕ, suc, ◌+◌, ◌≡◌, Bool, true, false, if◌then◌else◌, List, [], ◌∷◌, arith}
use platform_sdk.Core.Error.{Value}

pub data ValueType : Type 0 where
  undefined boolean integer floating_point string blob dictionary vector : ValueType

-- The tag, the member that was constructed last and not destroyed (`undefined` for none), and the
-- number of members with a destructor that were overwritten without a call of it.
pub record Object (D : Type 0) : Type 0 where
  pub type : ValueType
  pub member : Value D
  pub lost : ℕ

module _ {D : Type 0} where
  unfoldable pub type_of : Value D → ValueType
  type_of Value.undefined = undefined
  type_of (Value.boolean x) = boolean
  type_of (Value.integer x) = integer
  type_of (Value.floating_point x) = floating_point
  type_of (Value.string x) = string
  type_of (Value.blob x) = blob
  type_of (Value.dictionary x) = dictionary
  type_of (Value.vector x) = vector

  -- The members whose destructor does something.
  unfoldable pub owns : Value D → Bool
  owns (Value.string x) = true
  owns (Value.blob x) = true
  owns (Value.dictionary x) = true
  owns (Value.vector x) = true
  owns _ = false

  unfoldable pub initial : Object D
  initial = record { type = undefined; member = Value.undefined; lost = 0 }

  -- The placement new of a member.
  unfoldable pub emplace : Value D → Object D → Object D
  emplace x o = record {
    type = type_of x;
    member = x;
    lost = if owns o.member then suc o.lost else o.lost;
  }

  -- `construct(const Value&)`: the undefined value constructs nothing.
  unfoldable pub construct : Value D → Object D → Object D
  construct Value.undefined o = o
  construct x o = emplace x o

  -- The `switch` of `destruct`.
  unfoldable pub release : ValueType → Object D → Object D
  release string o = record o { member = Value.undefined }
  release blob o = record o { member = Value.undefined }
  release dictionary o = record o { member = Value.undefined }
  release vector o = record o { member = Value.undefined }
  release _ o = o

  -- The tag is set before the `switch` reads it.
  unfoldable pub destruct : Object D → Object D
  destruct o = let o' = record o { type = undefined } in release o'.type o'

  unfoldable pub assign : Value D → Object D → Object D
  assign x o = construct x (destruct o)

  unfoldable pub assign_all : List (Value D) → Object D → Object D
  assign_all [] o = o
  assign_all (x ∷ xs) o = assign_all xs (assign x o)

  -- How many members with a destructor the object ever had: those lost, and the one that is there.
  abbrev pub had : Object D → ℕ
  had o = if owns o.member then suc o.lost else o.lost

  abbrev pub count_owning : List (Value D) → ℕ
  count_owning [] = 0
  count_owning (x ∷ xs) = if owns x then suc (count_owning xs) else count_owning xs

  assign-had : (x : Value D) (o : Object D) → had (assign x o) ≡ had o + (if owns x then 1 else 0)
  unfolding assign construct emplace destruct release owns type_of
  assign-had x o = ground arith

  -- Whatever values are assigned to a value and then the value is destroyed: no member is ever
  -- destroyed. Each string, blob, dictionary and vector that was ever constructed in it was lost
  -- when the next one took its place, or is still there when the destructor has run.
  pub assign_all-had :
      (xs : List (Value D)) (o : Object D)
      → had (destruct (assign_all xs o)) ≡ had o + count_owning xs
  unfolding assign_all destruct release
  assign_all-had [] o = ground arith
  assign_all-had (x ∷ xs) o = ground (arith, assign_all-had xs (assign x o), assign-had x o)

  -- The value that an object shows.
  unfoldable pub shows : Object D → Value D
  shows o = elim o.type [ undefined ↦ Value.undefined | _ ↦ o.member ]

  -- After any assignments, the object shows the value assigned last.
  pub shows-assign :
      (xs : List (Value D)) (x : Value D) (o : Object D) → shows (assign x (assign_all xs o)) ≡ x
  unfolding shows assign construct emplace destruct release type_of
  shows-assign xs x o = ground arith
