-- ===== src/Examples/Callbacks.antt =====
-- Documents, and callers of requests.
use platform_sdk.Base.{
  true, ℕ, String, refl, Bool, false, ◌||◌, if◌then◌else◌, none, List, [], ◌∷◌, str_eq, arith,
}
use platform_sdk.Core.Outcome.{Outcome, value, error}
use platform_sdk.Net.Request.{Message, Completion, begin, response, run}
use platform_sdk.Net.Response.{classify}
use platform_sdk.Net.Jsend.{Json, parse_to_outcome}
use platform_sdk.Net.Jsend.Rejection.{Decides}
use platform_sdk.Net.Jsend.Acceptance.{lacks_data, body_value, parse_to_outcome-Decides}
use platform_sdk.Net.Middleware.{
  jsend_parsing_request_callback, authenticate_with_password_callback,
}
use platform_sdk.Net.Middleware.Hearing.{Calls, call_back, run-begin-Calls}
use platform_sdk.Examples.Fixtures.{whole_floating}

-- A document is a string, or an object of one or two members.
data Document : Type 0 where
  text : String → Document
  object : List (String × String) → Document

abbrev has : String → List (String × String) → Bool
has key [] = false
has key ((k, v) ∷ rest) = str_eq k key || has key rest

abbrev member : String → List (String × String) → Outcome Document String
member key [] = error "key not found"
member key ((k, v) ∷ rest) = if str_eq k key then value (text v) else member key rest

abbrev count : String → Document → Bool
count key (text v) = false
count key (object members) = has key members

abbrev at : String → Document → Outcome Document String
at key (text v) = error "no object"
at key (object members) = member key members

abbrev get : Document → Outcome String String
get (text v) = value v
get (object members) = error "no string"

abbrev equals : Document → String → Bool
equals (text v) s = str_eq v s
equals (object members) s = false

abbrev json : Json Document String
json = record {
  parse = λ s.
      if str_eq s "good"
      then value (object (("status", "success") ∷ ("data", "token") ∷ []))
      else if str_eq s "bare"
      then value (object (("status", "success") ∷ []))
      else error "parse error";
  count = count;
  at = at;
  get_string = get;
  equals = equals;
  dump = λ d. "{}";
  get = get;
}

parse_to_outcome-Decides_example :
    Decides {D = ℕ} (lacks_data json "good") (body_value json "good") (parse_to_outcome json "good")
parse_to_outcome-Decides_example = parse_to_outcome-Decides ℕ json "good"

abbrev page : Message
page = record { version = 11; result_int = 200; body = "good" }

abbrev ended : List Completion
ended = none ∷ none ∷ none ∷ none ∷ []

run-begin-Calls_example :
    Calls {T = String} {D = ℕ} 1
      (call_back (jsend_parsing_request_callback json) (run page ended (begin false)).results)
    × Calls {T = String} {D = ℕ} 1 (
        call_back
          (authenticate_with_password_callback json (λ o. true))
          (run page ended (begin false)).results)
unfolding classify response
run-begin-Calls_example = run-begin-Calls ℕ json (λ o. true) page false ended (omega arith) refl
