-- ===== src/Cmds/Login.antt =====
-- src/airmap/cmds/airmap/cmd/login.cpp: the command that requests or renews a token and keeps it in a
-- file, by way of src/airmap/codec/json/token.cpp. Logging and the table that is printed are left out;
-- a client is always created, as in src/airmap/boost/context.cpp. `rest` and `rest_type` are what is in
-- a type that was not written to before it is read.
pub mod Renewals
use platform_sdk.Base.{
  ℕ, Bool, true, false, String, Option, none, some, is_some, ◌>>=◌, List, [], ◌∷◌, if◌then◌else◌,
  str_eq,
}
use platform_sdk.Boost.Context.{Context, ReturnCode, success, error, Handler}
use platform_sdk.Boost.Context
use platform_sdk.Core.Flight.{Credentials}
use platform_sdk.Core.Flight
use platform_sdk.Core.Outcome.{Outcome}
use platform_sdk.Core.Outcome
use platform_sdk.Codec.Json.{Library, Texts}
use platform_sdk.Codec.Json.Token.{to_text, load_from_json}
use platform_sdk.Core.Token.{
  TokenType, Token, unknown, anonymous, oauth, refreshed, Anonymous, OAuth, Refreshed,
  anonymous_member, oauth_member, refreshed_member, oauth_of, refreshed_of,
}

-- The calls of the authenticator, a renewal with the token that its callback is bound to.
pub data Request : Type 0 where
  authenticate_with_password : Flight.OAuth → Request
  authenticate_anonymously : String → Request
  renew_authentication : (client_id refresh_token : String) → Token → Request

-- The results of the authenticator, and whether the file can be opened for writing.
pub record Answer (X : Type 0) : Type 0 where
  pub password : Outcome OAuth X
  pub anonymously : Outcome Anonymous X
  pub renewed : Outcome Refreshed X
  pub opens : Bool

-- The constructors of Token.
abbrev pub of_anonymous : Anonymous → Token
of_anonymous t = record { type = anonymous; member = anonymous_member t }

abbrev pub of_oauth : OAuth → Token
of_oauth t = record { type = oauth; member = oauth_member t }

abbrev pub of_refreshed : Refreshed → Token
of_refreshed t = record { type = refreshed; member = refreshed_member t }

-- What the command asks for, or the code that it stops the context with.
pub data Start : Type 0 where
  requests : Request → Start
  stops : ReturnCode → Start
  idle : Start

-- An optional without a value and a member that is not alive are not to be read.
unfoldable pub refresh_token : Token → Option String
refresh_token t = elim t.type [
  | oauth ↦ do x ← oauth_of t.member; some x.refresh
  | refreshed ↦ do x ← refreshed_of t.member; original ← x.original_token; some original.refresh
  | _ ↦ some ""
]

unfoldable pub renew_authentication_with : Credentials → Token → Option Start
renew_authentication_with credentials token = do
  by ← credentials.oauth
  refresh ← refresh_token token
  some (requests (renew_authentication by.client_id refresh token))

unfoldable pub request_authentication : Credentials → Start
request_authentication credentials = elim credentials.oauth [
  | some by ↦ requests (authenticate_with_password by)
  | none ↦ elim credentials.anonymous [
    | some id ↦ requests (authenticate_anonymously id)
    | none ↦ idle
  ]
]

-- With the flag `--renew`: the tests of the token that was read.
unfoldable pub renew : Credentials → Token → Option Start
renew credentials token = elim token.type [
  | oauth ↦ do
    x ← oauth_of token.member
    if str_eq x.refresh "" then some (stops error) else renew_authentication_with credentials token
  | refreshed ↦ do
    x ← refreshed_of token.member
    if is_some x.original_token
        then renew_authentication_with credentials token
        else some (stops error)
  | _ ↦ some (stops error)
]

-- The token that the renewed one keeps.
unfoldable pub original : Token → Option OAuth → Option (Option OAuth)
original previous kept = elim previous.type [
  | oauth ↦ do x ← oauth_of previous.member; some (some x)
  | refreshed ↦ do x ← refreshed_of previous.member; y ← x.original_token; some (some y)
  | _ ↦ some kept
]

-- The end of a command: the code that `exec` returns, or none where it waits.
abbrev pub exec : List Handler → Context → Option ReturnCode
exec handlers c = do (_, code) ← Context.run handlers c; some code

module _ (J : Type 0) {F : Type 0} ⦃lib : Library J⦄ ⦃texts : Texts J F⦄ (rest : ℕ)
    (rest_type : TokenType) where
  -- The callback for the client that was created. A file that is not there cannot be read as a token:
  -- `none` is an exception here.
  unfoldable pub begin : Credentials → Bool → Option F → Option Start
  begin credentials renews file =
      if renews
      then (do
        document ← file
        token ← load_from_json J rest rest_type document
        renew credentials token)
      else some (request_authentication credentials)

module _ (J : Type 0) {F : Type 0} ⦃lib : Library J⦄ ⦃texts : Texts J F⦄ where
  unfoldable pub persist : Token → Bool → Option F → Option (Option F × Handler)
  persist token opens file =
      if opens
      then (do text ← to_text J token; some (some text, success ∷ []))
      else some (file, error ∷ [])

  unfoldable pub handle_result_for_authentication_with_password :
      {X : Type 0} → Outcome OAuth X → Bool → Option F → Option (Option F × Handler)
  handle_result_for_authentication_with_password (Outcome.value t) opens file =
      persist (of_oauth t) opens file
  handle_result_for_authentication_with_password (Outcome.error e) opens file =
      some (file, error ∷ [])

  unfoldable pub handle_result_for_anonymous_authentication :
      {X : Type 0} → Outcome Anonymous X → Bool → Option F → Option (Option F × Handler)
  handle_result_for_anonymous_authentication (Outcome.value t) opens file =
      persist (of_anonymous t) opens file
  handle_result_for_anonymous_authentication (Outcome.error e) opens file = some (file, error ∷ [])

  unfoldable pub handle_result_for_renewed_authentication :
      {X : Type 0} → Outcome Refreshed X → Token → Bool → Option F → Option (Option F × Handler)
  handle_result_for_renewed_authentication (Outcome.value t) previous opens file = do
    kept ← original previous t.original_token
    persist (of_refreshed (record t { original_token = kept })) opens file
  handle_result_for_renewed_authentication (Outcome.error e) previous opens file =
      some (file, error ∷ [])

  -- The callback of a request.
  unfoldable pub respond :
      {X : Type 0} → Request → Answer X → Option F → Option (Option F × Handler)
  respond (authenticate_with_password by) answer file =
      handle_result_for_authentication_with_password answer.password answer.opens file
  respond (authenticate_anonymously id) answer file =
      handle_result_for_anonymous_authentication answer.anonymously answer.opens file
  respond (renew_authentication client_id refresh previous) answer file =
      handle_result_for_renewed_authentication answer.renewed previous answer.opens file

module _ (J : Type 0) {F : Type 0} ⦃lib : Library J⦄ ⦃texts : Texts J F⦄ (rest : ℕ)
    (rest_type : TokenType) where
  -- The command: the client is created, with the callback above, before the context runs. The results
  -- are the file, the request and the end.
  unfoldable pub login :
      {X : Type 0}
      → Credentials
      → Bool
      → Answer X
      → Option F
      → Option (Option F × Option Request × Option ReturnCode)
  login credentials renews answer file = do
    start ← begin J rest rest_type credentials renews file
    elim start [
      | requests r ↦ do
        (file', handler) ← respond J r answer file
        some (file', some r, exec (handler ∷ []) Context.create)
      | stops code ↦ some (file, none, exec [] (Context.stop code Context.create))
      | idle ↦ some (file, none, exec [] Context.create)
    ]
