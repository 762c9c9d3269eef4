-- ===== src/Core/Error/Order/Assigning.antt =====
-- What is set in an error, and found there.
use platform_sdk.Base.{
  ℕ, ◌≡◌, refl, Bool, true, false, ◌&&◌, Option, none, some, ◌>>=◌, List, [], ◌∷◌, compare_refl,
  arith, if◌then◌else◌,
}
use platform_sdk.Base.Int.{ℤ, pos, negsuc}
use platform_sdk.Core.Floating.{Floating}
use platform_sdk.Core.Error.{
  Value, undefined, boolean, integer, floating_point, string, blob, dictionary, vector, Dictionary,
  empty, entry, Error,
}
use platform_sdk.Core.Error.Order.{
  is_basic_type, type_number, bool_lt, int_lt, blob_lt, same_type_lt, value_lt, put, value,
}

module _ {D : Type 0} where
  abbrev pub keys_are_basic : Dictionary D → Bool
  keys_are_basic empty = true
  keys_are_basic (entry k v d) = is_basic_type k && keys_are_basic d

bool_lt_self : (x : Bool) → bool_lt x x ≡ false
unfolding bool_lt
bool_lt_self true = refl
bool_lt_self false = refl

int_lt_self : (x : ℤ) → int_lt x x ≡ false
unfolding int_lt
int_lt_self (pos n) = ground arith
int_lt_self (negsuc n) = ground arith

blob_lt_self : (x : List ℕ) → blob_lt x x ≡ false
unfolding blob_lt
blob_lt_self [] = refl
blob_lt_self (x ∷ xs) = ground (arith, blob_lt_self xs)

module _ {D : Type 0} ⦃fl : Floating D⦄ where
  -- `find` of a map with the same order.
  abbrev pub find : Value D → Dictionary D → Option (Option (Value D))
  find k empty = some none
  find k (entry j w d) =
      let rest = find k d in
      do
        less ← value_lt k j
        more ← value_lt j k
        if less then some none else if more then rest else some (some w)

  value_lt_self :
      ((x : D) → fl.lt x x ≡ false)
      → (k : Value D) → is_basic_type k ≡ true
      → value_lt k k ≡ some false
  unfolding value_lt same_type_lt is_basic_type type_number
  value_lt_self irr undefined b = refl
  value_lt_self irr (boolean x) b = rw (bool_lt_self x) refl
  value_lt_self irr (integer x) b = rw (int_lt_self x) refl
  value_lt_self irr (floating_point x) b = rw (irr x) refl
  value_lt_self irr (string x) b = rw (compare_refl x) refl
  value_lt_self irr (blob x) b = rw (blob_lt_self x) refl
  value_lt_self irr (dictionary x) b = ground arith
  value_lt_self irr (vector x) b = ground arith

  basic-value_lt :
      (k j : Value D)
      → is_basic_type k ≡ true
      → is_basic_type j ≡ true
      → (b : Bool) × (value_lt k j ≡ some b)
  unfolding value_lt
  basic-value_lt k j x y = rw (x, y) (_, refl)

  -- Writing `v` at `k` goes through, and `v` is found at `k`.
  abbrev pub Finds : Value D → Value D → Option (Dictionary D) → Type 0
  Finds k v none = ⊥
  Finds k v (some d) = find k d ≡ some (some v)

  entry-Finds :
      (k v j w : Value D) (d : Dictionary D) (less more : Bool) (o : Option (Dictionary D))
      → value_lt k k ≡ some false
      → value_lt k j ≡ some less
      → value_lt j k ≡ some more
      → put k v d ≡ o
      → Finds k v o
      → Finds k v (put k v (entry j w d))
  unfolding put
  entry-Finds k v j w d true more o self l m e h = rw (l, m, self) refl
  entry-Finds k v j w d false true none self l m e h = absurd h
  entry-Finds k v j w d false true (some d') self l m e h = rw (l, m, e) (rw (l, m) h)
  entry-Finds k v j w d false false o self l m e h = rw (l, m) (rw (l, m) refl)

  put-Finds :
      ((x : D) → fl.lt x x ≡ false)
      → (k v : Value D) (d : Dictionary D) → is_basic_type k ≡ true
      → keys_are_basic d ≡ true
      → Finds k v (put k v d)
  unfolding put
  put-Finds irr k v empty b bs = rw (value_lt_self irr k b) refl
  put-Finds irr k v (entry j w d) b bs =
      let first : is_basic_type j ≡ true = ground arith in
      let others : keys_are_basic d ≡ true = ground arith in
      let (less, l) = basic-value_lt k j b first in
      let (more, m) = basic-value_lt j k first b in
      entry-Finds k v j w d less more (put k v d) (value_lt_self irr k b) l m refl
        (put-Finds irr k v d b others)

  -- The error with the value written goes through, and it is found there.
  abbrev pub Reads : Value D → Value D → Option (Error D) → Type 0
  Reads k v none = ⊥
  Reads k v (some e) = find k e.values ≡ some (some v)

  put-Reads :
      (k v : Value D) (e : Error D) (o : Option (Dictionary D))
      → Finds k v o
      → Reads k v (o >>= λ values. some (record e { values = values }))
  put-Reads k v e none h = absurd h
  put-Reads k v e (some d) h = h

  -- A value that is set in an error whose keys are of basic types, at a key of a basic type, is
  -- found at that key afterwards, and no exception is thrown. No floating-point number may be less
  -- than itself.
  pub value-Reads :
      ((x : D) → fl.lt x x ≡ false)
      → (k v : Value D) (e : Error D) → is_basic_type k ≡ true
      → keys_are_basic e.values ≡ true
      → Reads k v (value k v e)
  unfolding value
  value-Reads irr k v e b bs = put-Reads k v e (put k v e.values) (put-Finds irr k v e.values b bs)

  -- A key that is not of a basic type is accepted by an error without values, and from then on
  -- every further value that is set throws.
  pub value-value :
      (k v j w : Value D) (e : Error D)
      → is_basic_type k ≡ false
      → e.values ≡ empty
      → (e' : Error D) × (value k v e ≡ some e') × (value j w e' ≡ none)
  unfolding value put value_lt
  value-value k v j w e b none_yet =
      let no : (is_basic_type j && is_basic_type k) ≡ false = ground arith in
      (record e { values = entry k v empty }, rw none_yet refl, rw no refl)
