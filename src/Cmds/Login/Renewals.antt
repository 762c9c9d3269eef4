-- ===== src/Cmds/Login/Renewals.antt =====
-- A token that is renewed again and again.
use platform_sdk.Base.{
  ℕ, Bool, true, false, ◌&&◌, String, ◌≡◌, refl, ◌⊎◌, inl, inr, Option, none, some, ◌>>=◌, List, [],
  ◌∷◌, if◌then◌else◌, str_eq,
}
use platform_sdk.Boost.Context.{Context, ReturnCode, success, error, Handler}
use platform_sdk.Boost.Context
use platform_sdk.Core.Flight.{Credentials}
use platform_sdk.Core.Flight
use platform_sdk.Core.Outcome.{Outcome}
use platform_sdk.Codec.Json.{Library, Texts}
use platform_sdk.Codec.Json.Token.{load_from_json}
use platform_sdk.Codec.Json.Token.RoundTrip.{kept_oauth, load_from_json-to_text}
use platform_sdk.Core.Token.{
  TokenType, Token, OAuth, Refreshed, refreshed_member, oauth_of, refreshed_of, print,
}
use platform_sdk.Cmds.Login.{
  Request, renew_authentication, Answer, of_oauth, of_refreshed, Start, refresh_token,
  renew_authentication_with, renew, begin, persist, original,
  handle_result_for_renewed_authentication, respond, exec, login,
}

-- A token that is renewed with the text `r`.
abbrev pub IsRenewable : String → Token → Type 0
IsRenewable r t =
    ((x : OAuth) × (t ≡ of_oauth x) × (x.refresh ≡ r))
    ⊎ ((x : Refreshed) × (y : OAuth) × (t ≡ of_refreshed x)
        × (x.original_token ≡ some y)
        × (y.refresh ≡ r))

abbrev succeeds : {X : Type 0} → Outcome Refreshed X → Bool
succeeds (Outcome.value t) = true
succeeds (Outcome.error e) = false

-- The code that a renewal ends with.
abbrev pub code_for : {X : Type 0} → Answer X → ReturnCode
code_for a = if succeeds a.renewed && a.opens then success else error

exec_lem : (rc : ReturnCode) → exec ((rc ∷ []) ∷ []) Context.create ≡ some rc
unfolding Context.run Context.create Context.serve Context.handle Context.stop
exec_lem rc = refl

renew_lem :
    (credentials : Credentials) (by : Flight.OAuth) (r : String) (t : Token)
    → credentials.oauth ≡ some by
    → str_eq r "" ≡ false
    → IsRenewable r t
    → renew credentials t ≡ some (Start.requests (renew_authentication by.client_id r t))
unfolding renew renew_authentication_with refresh_token oauth_of refreshed_of
renew_lem credentials by r t has filled (inl (x, is, text)) = rw (is, text, filled, has) refl
renew_lem credentials by r t has filled (inr (x, y, is, kept, text)) = rw (is, kept, text, has) refl

original_lem :
    (r : String) (t : Token) (kept : Option OAuth)
    → IsRenewable r t
    → (y : OAuth) × (original t kept ≡ some (some y)) × (y.refresh ≡ r)
unfolding original oauth_of refreshed_of
original_lem r t kept (inl (x, is, text)) = (x, rw is refl, text)
original_lem r t kept (inr (x, y, is, had, text)) = (y, rw (is, had) refl, text)

module _ (J : Type 0) {F : Type 0} ⦃lib : Library J⦄ ⦃texts : Texts J F⦄ (rest : ℕ)
    (rest_type : TokenType) (r : String) where
  -- The file has a token that is renewed with `r`.
  abbrev pub Holds : Option F → Type 0
  Holds none = ⊥
  Holds (some d) = (t : Token) × (load_from_json J rest rest_type d ≡ some t) × IsRenewable r t

module _ {X : Type 0} (by : Flight.OAuth) (r : String) where
  -- Each command asks for a renewal with `r`, and ends with the code of its answer.
  abbrev pub Renewed : List (Answer X) → List (Option Request × Option ReturnCode) → Type 0
  Renewed [] [] = Unit
  Renewed (a ∷ as') ((request, end) ∷ ends) =
      ((t : Token) × (request ≡ some (renew_authentication by.client_id r t)))
      × (end ≡ some (code_for a))
      × Renewed as' ends
  Renewed _ _ = ⊥

module _ (J : Type 0) {F X : Type 0} ⦃lib : Library J⦄ ⦃texts : Texts J F⦄ (rest : ℕ)
    (rest_type : TokenType) (credentials : Credentials) where
  -- The command again and again, each time on the file that the last one left.
  unfoldable pub logins :
      List (Answer X) → Option F → Option (Option F × List (Option Request × Option ReturnCode))
  logins [] file = some (file, [])
  logins (a ∷ as') file = do
    (file', request, end) ← login J rest rest_type credentials true a file
    (file'', ends) ← logins as' file'
    some (file'', (request, end) ∷ ends)

  module _ (by : Flight.OAuth) (r : String) (has : credentials.oauth ≡ some by)
      (filled : str_eq r "" ≡ false)
      (words : (t : TokenType) → lib.read_word (print t) ≡ some (print t)) where
    handle_lem :
        (t : Token) (o : Outcome Refreshed X) (opens : Bool) (file : Option F)
        → IsRenewable r t
        → Holds J rest rest_type r file
        → (file' : Option F) × (handle_result_for_renewed_authentication J o t opens file
            ≡ some (file', (if succeeds o && opens then success else error) ∷ []))
          × Holds J rest rest_type r file'
    unfolding handle_result_for_renewed_authentication persist
    handle_lem t (Outcome.error e) opens file h holds = (file, refl, holds)
    handle_lem t (Outcome.value x) false file h holds =
        let (y, keeps, text) = original_lem r t x.original_token h in (file, rw keeps refl, holds)
    handle_lem t (Outcome.value x) true file h holds =
        let (y, keeps, text) = original_lem r t x.original_token h in
        let x' : Refreshed = record x { original_token = some y } in
        let (d, writes, reads) =
          load_from_json-to_text J rest rest_type (refreshed_member x') words in
        (some d, rw (keeps, writes) refl, (_, reads, inr (_, kept_oauth rest y, refl, refl, text)))

    login_lem :
        (a : Answer X) (file : Option F)
        → Holds J rest rest_type r file
        → (file' : Option F) × (t : Token) × (login J rest rest_type credentials true a file
            ≡ some (file', some (renew_authentication by.client_id r t), some (code_for a)))
          × Holds J rest rest_type r file'
    unfolding login begin respond
    login_lem a none h = elim h [ ]
    login_lem a (some d) (t, read, h) =
        let (file', responds, holds) = handle_lem t a.renewed a.opens (some d) h (t, read, h) in
        (
          file',
          t,
          rw (read, renew_lem credentials by r t has filled h, responds, exec_lem (code_for a))
              refl,
          holds,
        )

    logins_lem :
        (as' : List (Answer X)) (file : Option F)
        → Holds J rest rest_type r file
        → (file' : Option F) × (ends : List (Option Request × Option ReturnCode)) × (logins as' file
            ≡ some (file', ends))
          × Renewed by r as' ends
          × Holds J rest rest_type r file'
    unfolding logins
    logins_lem [] file h = (file, [], refl, tt, h)
    logins_lem (a ∷ as') file h =
        let (file₁, t, goes, h₁) = login_lem a file h in
        let (file₂, ends, go, renewed, h₂) = logins_lem as' file₁ h₁ in
        (
          file₂,
          (some (renew_authentication by.client_id r t), some (code_for a)) ∷ ends,
          rw (goes, go) refl,
          ((t, refl), refl, renewed),
          h₂,
        )

  -- The credentials have a user, the name of each type of token is read as one word, and the file has a
  -- token of a user, or a renewed one that keeps its original, with a refresh token that is not empty.
  -- However often `login --renew` is run, whatever the answers are and whether or not the file can be
  -- written: each time a renewal with this refresh token is requested, the command returns success
  -- exactly if it is answered with a token and the file can be written, and the file has such a token
  -- again.
  pub logins-renew :
      (by : Flight.OAuth) (r : String) (answers : List (Answer X)) (file : Option F)
      → credentials.oauth ≡ some by
      → str_eq r "" ≡ false
      → ((t : TokenType) → lib.read_word (print t) ≡ some (print t))
      → Holds J rest rest_type r file
      → (file' : Option F) × (ends : List (Option Request × Option ReturnCode)) × (logins answers
            file
          ≡ some (file', ends))
        × Renewed by r answers ends
        × Holds J rest rest_type r file'
  logins-renew by r answers file has filled words h =
      logins_lem by r has filled words answers file h
