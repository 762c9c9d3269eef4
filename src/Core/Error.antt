-- ===== src/Core/Error.antt =====
-- include/airmap/error.h: the error value, its discriminated union and its dictionary.
pub mod Lifetime
pub mod Equality
pub mod Order
use platform_sdk.Base.{ℕ, String, Bool, Option, List}
use platform_sdk.Base.Int.{ℤ}

-- A `std::map<Value, Value>` is the list of its entries in the order of the keys.
mutual
  pub data Value (D : Type 0) : Type 0 where
    undefined : Value D
    boolean : Bool → Value D
    integer : ℤ → Value D
    floating_point : D → Value D
    string : String → Value D
    blob : List ℕ → Value D
    dictionary : Dictionary D → Value D
    vector : Values D → Value D

  pub data Dictionary (D : Type 0) : Type 0 where
    empty : Dictionary D
    entry : Value D → Value D → Dictionary D → Dictionary D

  pub data Values (D : Type 0) : Type 0 where
    nil : Values D
    cons : Value D → Values D → Values D

pub record Error (D : Type 0) : Type 0 where
  pub message : String
  pub description : Option String
  pub values : Dictionary D
