-- ===== src/Net/Middleware.antt =====
-- src/airmap/net/http/middleware.h, and the callback of authenticate_with_password in
-- src/airmap/rest/authenticator.cpp: the calls that a caller gets for the result of a request. `throws`
-- tells whether the caller's `cb` throws for an outcome; elsewhere its exceptions only leave the
-- callback, after the call.
pub mod Hearing
use platform_sdk.Base.{ℕ, String, Bool, List, [], ◌∷◌, if◌then◌else◌}
use platform_sdk.Base.Int.{pos}
use platform_sdk.Core.Floating.{Floating}
use platform_sdk.Core.Error.{Error, integer, string}
use platform_sdk.Core.Outcome.{Outcome, value, error}
use platform_sdk.Net.Response.{
  Classification, informational, success, redirection, client_error, server_error, unclassified,
  classify,
}
use platform_sdk.Net.Request.{Response}
use platform_sdk.Net.Jsend.{
  Result, returned, thrown, undefined, ◌>>=◌, Json, lift, failed, with_value, text_at,
  parse_to_outcome,
}

module _ {D : Type 0} ⦃fl : Floating D⦄ where
  -- The `default` of both callbacks.
  unfoldable pub networking_error : Response → Result (Error D)
  networking_error r = do
    e ← with_value (string "status-code") (integer (pos r.status)) (failed "networking error")
    with_value (string "body") (string r.body) e

-- The calls of `next`.
unfoldable pub call {ℓ} : {A : Type ℓ} → Result A → Result (List A)
call r = do a ← r; returned (a ∷ [])

module _ {J T D : Type 0} ⦃fl : Floating D⦄ (json : Json J T) where
  unfoldable pub default_case : Response → Result (List (Outcome T (Error D)))
  default_case r = do e ← networking_error r; returned (error e ∷ [])

  unfoldable pub on_class : Classification → Response → Result (List (Outcome T (Error D)))
  on_class informational r = returned []
  on_class redirection r = returned []
  on_class success r = call (parse_to_outcome json r.body)
  on_class client_error r = call (parse_to_outcome json r.body)
  on_class server_error r = call (parse_to_outcome json r.body)
  on_class unclassified r = default_case r

  unfoldable pub jsend_parsing_request_callback :
      Outcome Response (Error D) → Result (List (Outcome T (Error D)))
  jsend_parsing_request_callback (value r) = on_class (classify r.status) r
  jsend_parsing_request_callback (error e) = returned (error e ∷ [])

  -- The `try` block for a client error; `catch (...)` gives the general error.
  unfoldable pub described : String → Result (Outcome T (Error D))
  described body = do
    j ← lift (json.parse body)
    if json.count "error_description" j
        then (do m ← text_at json "error_description" j; returned (error (failed m)))
        else returned (error (failed "generic client error"))

  -- The outcome of a client error whose body tells nothing.
  abbrev pub generic : Outcome T (Error D)
  generic = error (failed "generic client error")

  -- The branch for a client error. The call of `cb` is in the `try` block, so where `cb` throws, it is
  -- called once more.
  unfoldable pub on_client_error :
      (throws : Outcome T (Error D) → Bool) → String → Result (List (Outcome T (Error D)))
  on_client_error throws body = elim (described body) [
    | returned o ↦ returned (if throws o then o ∷ generic ∷ [] else o ∷ [])
    | thrown what ↦ returned (generic ∷ [])
    | undefined ↦ undefined
  ]

  unfoldable pub on_password_class :
      (throws : Outcome T (Error D) → Bool)
      → Classification
      → Response
      → Result (List (Outcome T (Error D)))
  on_password_class throws informational r = returned []
  on_password_class throws redirection r = returned []
  on_password_class throws success r = call (parse_to_outcome json r.body)
  on_password_class throws server_error r = call (parse_to_outcome json r.body)
  on_password_class throws client_error r = on_client_error throws r.body
  on_password_class throws unclassified r = default_case r

  unfoldable pub authenticate_with_password_callback :
      (throws : Outcome T (Error D) → Bool)
      → Outcome Response (Error D)
      → Result (List (Outcome T (Error D)))
  authenticate_with_password_callback throws (value r) =
      on_password_class throws (classify r.status) r
  authenticate_with_password_callback throws (error e) = returned (error e ∷ [])
