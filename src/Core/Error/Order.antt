-- ===== src/Core/Error/Order.antt =====
-- src/airmap/error.cpp: the order of values, and the map of an error that it keeps sorted.

pub mod Assigning
use platform_sdk.Base.{
  ℕ, ◌==◌, ltb, Bool, true, false, ◌&&◌, not, Option, none, some, ◌>>=◌, List, [], ◌∷◌, is_lt,
  str_compare, if◌then◌else◌, ◌≡◌, refl, arith, compare_refl,
}
use platform_sdk.Base.Int.{ℤ, pos, negsuc}
use platform_sdk.Core.Floating.{Floating}
use platform_sdk.Core.Error.{
  Value, undefined, boolean, integer, floating_point, string, blob, dictionary, vector, Dictionary,
  empty, entry, Error,
}

module _ {D : Type 0} where
  unfoldable pub is_basic_type : Value D → Bool
  is_basic_type (dictionary d) = false
  is_basic_type (vector v) = false
  is_basic_type _ = true

  -- The number of the type, in the order of `Type`.
  unfoldable pub type_number : Value D → ℕ
  type_number undefined = 0
  type_number (boolean x) = 1
  type_number (integer x) = 2
  type_number (floating_point x) = 3
  type_number (string x) = 4
  type_number (blob x) = 5
  type_number (dictionary x) = 6
  type_number (vector x) = 7

unfoldable pub bool_lt : Bool → Bool → Bool
bool_lt false true = true
bool_lt _ _ = false

unfoldable pub int_lt : ℤ → ℤ → Bool
int_lt (pos m) (pos n) = ltb m n
int_lt (pos m) (negsuc n) = false
int_lt (negsuc m) (pos n) = true
int_lt (negsuc m) (negsuc n) = ltb n m

-- The lexicographic order of vectors of bytes.
unfoldable pub blob_lt : List ℕ → List ℕ → Bool
blob_lt [] [] = false
blob_lt [] (y ∷ ys) = true
blob_lt (x ∷ xs) [] = false
blob_lt (x ∷ xs) (y ∷ ys) =
    let rest = blob_lt xs ys in if ltb x y then true else if ltb y x then false else rest

module _ {D : Type 0} ⦃fl : Floating D⦄ where
  -- Values of one type.
  unfoldable pub same_type_lt : Value D → Value D → Bool
  same_type_lt (boolean x) (boolean y) = bool_lt x y
  same_type_lt (integer x) (integer y) = int_lt x y
  same_type_lt (floating_point x) (floating_point y) = fl.lt x y
  same_type_lt (string x) (string y) = is_lt (str_compare x y)
  same_type_lt (blob x) (blob y) = blob_lt x y
  same_type_lt _ _ = false

  -- `operator<`; `none` is the exception.
  unfoldable pub value_lt : Value D → Value D → Option Bool
  value_lt lhs rhs =
      if is_basic_type lhs && is_basic_type rhs
      then some (
          if type_number lhs == type_number rhs
          then same_type_lt lhs rhs
          else ltb (type_number lhs) (type_number rhs))
      else none

  -- `values_[key] = value`: the search for the key compares it with the keys of the map, each way
  -- round.
  unfoldable pub put : Value D → Value D → Dictionary D → Option (Dictionary D)
  put k v empty = some (entry k v empty)
  put k v (entry j w d) =
      let rest = put k v d in
      do
        less ← value_lt k j
        more ← value_lt j k
        if less
            then some (entry k v (entry j w d))
            else if more
            then (do d' ← rest; some (entry j w d'))
            else some (entry j v d)

  -- `Error::value` with a key and a value.
  unfoldable pub value : Value D → Value D → Error D → Option (Error D)
  value k v e = do values ← put k v e.values; some (record e { values = values })
