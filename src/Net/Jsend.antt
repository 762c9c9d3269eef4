-- ===== src/Net/Jsend.antt =====
-- src/airmap/jsend.h: an outcome from the JSON document of a response.
pub mod Rejection
pub mod Acceptance
use platform_sdk.Base.{String, Bool, true, Option, none, some, if◌then◌else◌}
use platform_sdk.Core.Floating.{Floating}
use platform_sdk.Core.Error.{Error, Value, empty, boolean, string}
use platform_sdk.Core.Error.Order
use platform_sdk.Core.Outcome.{Outcome, value, error}

-- What a call comes to: a result, an exception with its text, or undefined behaviour.
pub data Result {ℓ} (A : Type ℓ) : Type ℓ where
  returned : A → Result A
  thrown : String → Result A
  undefined : Result A

infixl 5 ◌>>=◌
abbrev pub ◌>>=◌ {ℓ κ} : {A : Type ℓ} {B : Type κ} → Result A → (A → Result B) → Result B
returned a >>= f = f a
thrown what >>= f = thrown what
undefined >>= f = undefined

-- The JSON library. `J` is its type of documents, `T` the type that is read from one. An error is
-- the text of an exception. `count` is the test that a document is an object with a key.
pub record Json (J T : Type 0) : Type 0 where
  pub parse : String → Outcome J String
  pub count : String → J → Bool
  pub at : String → J → Outcome J String
  pub get_string : J → Outcome String String
  pub equals : J → String → Bool
  pub dump : J → String
  pub get : J → Outcome T String

unfoldable pub lift : {A : Type 0} → Outcome A String → Result A
lift (value a) = returned a
lift (error what) = thrown what

module _ {D : Type 0} where
  -- The constructor of an error from its message, and `description`.
  unfoldable pub failed : String → Error D
  failed message = record { message = message; description = none; values = empty }

  unfoldable pub describe : String → Error D → Error D
  describe text e = record e { description = some text }

module _ {D : Type 0} ⦃fl : Floating D⦄ where
  -- `value` of an error, with the exception of the comparison.
  unfoldable pub with_value : Value D → Value D → Error D → Result (Error D)
  with_value key v e = elim (Order.value key v e) [
    | none ↦ thrown "cannot compare non-basic types"
    | some e' ↦ returned e'
  ]

module _ {J T : Type 0} (json : Json J T) where
  -- `operator[]` of a constant object, which requires the key.
  unfoldable pub index : String → J → Result J
  index key j = if json.count key j then lift (json.at key j) else undefined

  -- The string at a key, where the key may be absent.
  unfoldable pub text_at : String → J → Result String
  text_at key j = do m ← lift (json.at key j); lift (json.get_string m)

module _ {J T D : Type 0} ⦃fl : Floating D⦄ (json : Json J T) where
  -- An error with the data of the document, if any, as its description.
  unfoldable pub with_data : String → J → Result (Outcome T (Error D))
  with_data message j =
      if json.count "data" j
      then (do
        d ← lift (json.at "data" j)
        returned (error (describe (json.dump d) (failed message))))
      else returned (error (failed message))

  unfoldable pub failure : J → Result (Outcome T (Error D))
  failure j =
      if json.count "message" j
      then (do m ← text_at json "message" j; returned (error (failed m)))
      else do
        d ← lift (json.at "data" j)
        if json.count "message" d
            then (do
              m ← text_at json "message" d
              returned (error (describe (json.dump d) (failed m))))
            else with_data "a failure occured, please see description for details" j

  unfoldable pub error_status : J → Result (Outcome T (Error D))
  error_status j =
      if json.count "message" j
      then (do m ← text_at json "message" j; with_data m j)
      else with_data "an error occured, please see description for details" j

  -- The key is a literal, which converts to `bool` and not to `std::string`.
  unfoldable pub not_formatted : J → Result (Outcome T (Error D))
  not_formatted j = do
    e ← with_value (boolean true) (string (json.dump j)) (failed "not jsend formatted")
    returned (error e)

  unfoldable pub with_status : J → Result (Outcome T (Error D))
  with_status j = do
    s ← index json "status" j
    if json.equals s "success"
        then (do d ← index json "data" j; t ← lift (json.get d); returned (value t))
        else if json.equals s "fail"
        then failure j
        else if json.equals s "error"
        then error_status j
        else not_formatted j

  unfoldable pub without_status : J → Result (Outcome T (Error D))
  without_status j =
      if json.count "error" j
      then (do m ← text_at json "error" j; returned (error (failed m)))
      else if json.count "msg" j
      then (do m ← text_at json "msg" j; returned (error (failed m)))
      else if json.count "message" j
      then (do m ← text_at json "message" j; returned (error (failed m)))
      else (do t ← lift (json.get j); returned (value t))

  unfoldable pub to_outcome : J → Result (Outcome T (Error D))
  to_outcome j = if json.count "status" j then with_status j else without_status j

  -- The handler of the exceptions.
  unfoldable pub caught : String → String → Result (Outcome T (Error D))
  caught what body = do
    e ←
        with_value (boolean true) (string body)
          (describe what (failed "failed to parse JSON response"))
    returned (error e)

  unfoldable pub parse_to_outcome : String → Result (Outcome T (Error D))
  parse_to_outcome body = elim (lift (json.parse body) >>= to_outcome) [
    | returned o ↦ returned o
    | thrown what ↦ caught what body
    | undefined ↦ undefined
  ]
