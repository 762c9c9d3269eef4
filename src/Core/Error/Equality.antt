-- ===== src/Core/Error/Equality.antt =====
-- src/airmap/error.cpp: the comparison of values by `==`.
use platform_sdk.Base.{
  ℕ, ◌==◌, ◌≡◌, refl, Bool, true, false, ◌&&◌, List, [], ◌∷◌, str_eq, str_eq_iff, arith,
}
use platform_sdk.Base.Int.{ℤ, pos, negsuc}
use platform_sdk.Core.Floating.{Floating}
use platform_sdk.Core.Geometry.Equality.{list_eq}
use platform_sdk.Core.Error.{
  Value, undefined, boolean, integer, floating_point, string, blob, dictionary, vector, Dictionary,
  empty, entry, Values, nil, cons,
}

unfoldable pub bool_eq : Bool → Bool → Bool
bool_eq true true = true
bool_eq false false = true
bool_eq _ _ = false

unfoldable pub int_eq : ℤ → ℤ → Bool
int_eq (pos m) (pos n) = m == n
int_eq (negsuc m) (negsuc n) = m == n
int_eq _ _ = false

module _ {D : Type 0} ⦃fl : Floating D⦄ where
  -- `operator==`, and those of a map and a vector, element by element. The `switch` has no case
  -- for two undefined values.
  unfoldable mutual
    pub value_eq : Value D → Value D → Bool
    value_eq (boolean x) (boolean y) = bool_eq x y
    value_eq (integer x) (integer y) = int_eq x y
    value_eq (floating_point x) (floating_point y) = fl.eq x y
    value_eq (string x) (string y) = str_eq x y
    value_eq (blob x) (blob y) = list_eq ◌==◌ x y
    value_eq (dictionary x) (dictionary y) = dictionary_eq x y
    value_eq (vector x) (vector y) = values_eq x y
    value_eq _ _ = false

    pub dictionary_eq : Dictionary D → Dictionary D → Bool
    dictionary_eq empty empty = true
    dictionary_eq (entry k v d) (entry k' v' d') =
        value_eq k k' && value_eq v v' && dictionary_eq d d'
    dictionary_eq _ _ = false

    pub values_eq : Values D → Values D → Bool
    values_eq nil nil = true
    values_eq (cons v vs) (cons w ws) = value_eq v w && values_eq vs ws
    values_eq _ _ = false

  -- No undefined value is in it.
  unfoldable mutual
    pub is_defined : Value D → Bool
    is_defined undefined = false
    is_defined (dictionary d) = dictionary_is_defined d
    is_defined (vector vs) = values_are_defined vs
    is_defined _ = true

    pub dictionary_is_defined : Dictionary D → Bool
    dictionary_is_defined empty = true
    dictionary_is_defined (entry k v d) = is_defined k && is_defined v && dictionary_is_defined d

    pub values_are_defined : Values D → Bool
    values_are_defined nil = true
    values_are_defined (cons v vs) = is_defined v && values_are_defined vs

bool_self : (b : Bool) → bool_eq b b ≡ true
unfolding bool_eq
bool_self b = ground arith

int_self : (z : ℤ) → int_eq z z ≡ true
unfolding int_eq
int_self (pos n) = ground arith
int_self (negsuc n) = ground arith

blob_self : (xs : List ℕ) → list_eq ◌==◌ xs xs ≡ true
unfolding list_eq
blob_self [] = refl
blob_self (x ∷ xs) = ground (arith, blob_self xs)

module _ {D : Type 0} ⦃fl : Floating D⦄ (same : (x : D) → fl.eq x x ≡ true) where
  mutual
    unfolding value_eq is_defined

    value_self : (v : Value D) → value_eq v v ≡ is_defined v
    value_self undefined = refl
    value_self (boolean x) = bool_self x
    value_self (integer x) = int_self x
    value_self (floating_point x) = same x
    value_self (string x) = (str_eq_iff x x).1 refl
    value_self (blob x) = blob_self x
    value_self (dictionary x) = dictionary_self x
    value_self (vector x) = values_self x

    dictionary_self : (d : Dictionary D) → dictionary_eq d d ≡ dictionary_is_defined d
    dictionary_self empty = refl
    dictionary_self (entry k v d) = rw (value_self k, value_self v, dictionary_self d)

    values_self : (vs : Values D) → values_eq vs vs ≡ values_are_defined vs
    values_self nil = refl
    values_self (cons v vs) = rw (value_self v, values_self vs)

  -- Where each number is equal to itself, a value is equal to itself exactly when no undefined
  -- value is in it, at any depth of its vectors and dictionaries.
  pub value_eq_self : (v : Value D) → value_eq v v ≡ is_defined v
  value_eq_self v = value_self v
