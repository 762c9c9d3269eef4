-- ===== src/Codec/Json.antt =====
-- The JSON library as src/airmap/codec/json uses it, and `get` of src/airmap/codec/json/get.h.
pub mod Token
use platform_sdk.Base.{
  ℕ, Bool, true, false, ◌≡◌, String, Option, none, some, ◌>>=◌, if◌then◌else◌, str_eq,
}

-- `J` is the type of documents. `put` is the assignment to `j[key]`, `find` reads a key of an object,
-- and `none` is an exception, or undefined behaviour for a key that is not there. `read_word` is what
-- `boost::lexical_cast` hands to `operator>>`.
pub record Library (J : Type 0) : Type 0 where
  pub null : J
  pub put : String → J → J → J
  pub find : String → J → Option J
  pub is_null : J → Bool
  pub of_string : String → J
  pub get_string : J → Option String
  pub of_number : ℕ → J
  pub get_number : J → Option ℕ
  pub read_word : String → Option String
  -- The documents that `operator[]` can be used on: null and objects.
  pub takes_keys : J → Bool
  pub null_takes_keys : takes_keys null ≡ true
  pub put_takes_keys : (k : String) (v j : J) → takes_keys j ≡ true → takes_keys (put k v j) ≡ true
  pub find-null : (k : String) → find k null ≡ none
  pub find-put :
      (key k : String) (v j : J)
      → takes_keys j ≡ true
      → find key (put k v j) ≡ (if str_eq key k then some v else find key j)
  pub is_null-null : is_null null ≡ true
  pub is_null-put : (k : String) (v j : J) → takes_keys j ≡ true → is_null (put k v j) ≡ false
  pub is_null-of_string : (s : String) → is_null (of_string s) ≡ false
  pub get_string-of_string : (s : String) → get_string (of_string s) ≡ some s
  pub is_null-of_number : (n : ℕ) → is_null (of_number n) ≡ false
  pub get_number-of_number : (n : ℕ) → get_number (of_number n) ≡ some n

-- The contents of a file, with `dump(2)` and `parse` of a stream.
pub record Texts (J F : Type 0) : Type 0 where
  pub dump : J → F
  pub parse : F → Option J
  pub parse-dump : (j : J) → parse (dump j) ≡ some j

module _ {J : Type 0} ⦃lib : Library J⦄ where
  -- A member that is null, or not there, leaves the value as it was.
  unfoldable pub get : {A : Type 0} → (J → Option A) → String → J → A → Option A
  get decode key j old = elim (lib.find key j) [
    | none ↦ some old
    | some v ↦ if lib.is_null v then some old else decode v
  ]
