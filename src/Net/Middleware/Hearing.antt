-- ===== src/Net/Middleware/Hearing.antt =====
-- How often the caller of a request hears of it.
use platform_sdk.Base.{
  ℕ, zero, suc, String, Bool, true, false, ◌≤◌, ◌≡◌, refl, Option, none, some, List, [], ◌∷◌, ◌++◌,
  length, append-nil, arith, ◌+◌, if◌then◌else◌, Bool-cases, inl, inr,
}
use platform_sdk.Core.Floating.{Floating}
use platform_sdk.Core.Error.{Error}
use platform_sdk.Core.Error.Order
use platform_sdk.Core.Outcome.{Outcome, value, error}
use platform_sdk.Net.Response.{
  Classification, informational, success, redirection, client_error, server_error, unclassified,
  classify,
}
use platform_sdk.Net.Request.{Message, Response, Completion, wrap_error_code, begin, response, run}
use platform_sdk.Net.Request.Answers.{operations, verdict, run-begin}
use platform_sdk.Net.Jsend.{
  Result, returned, thrown, undefined, ◌>>=◌, Json, failed, with_value, parse_to_outcome,
}
use platform_sdk.Net.Jsend.Rejection.{
  Decides, Judges, Rejects, lift-Rejects, if-Rejects, text_at-Rejects, error-Rejects,
}
use platform_sdk.Net.Jsend.Acceptance.{lacks_data, body_value, parse_to_outcome-Decides}
use platform_sdk.Net.Middleware.{
  networking_error, call, default_case, generic, on_class, jsend_parsing_request_callback,
  described, on_client_error, on_password_class, authenticate_with_password_callback,
}

-- A class that the callbacks pass over.
abbrev pub hears : Classification → ℕ
hears informational = 0
hears redirection = 0
hears _ = 1

module _ {D : Type 0} where
  -- For a result of a request.
  abbrev pub heard : (Response → ℕ) → Outcome Response (Error D) → ℕ
  heard often (value r) = often r
  heard often (error e) = 1

module _ {T D : Type 0} where
  -- A caller that throws within the `try` block is called once more.
  abbrev pub repeated : (Outcome T (Error D) → Bool) → Result (Outcome T (Error D)) → ℕ
  repeated throws (returned o) = if throws o then 1 else 0
  repeated throws _ = 0

  -- Defined, without an exception, and with that many calls.
  abbrev pub Calls : ℕ → Result (List (Outcome T (Error D))) → Type 0
  Calls n (returned calls) = length calls ≡ n
  Calls n _ = ⊥

  -- Each result of a request goes to its callback.
  abbrev pub call_back :
      (Outcome Response (Error D) → Result (List (Outcome T (Error D))))
      → List (Outcome Response (Error D))
      → Result (List (Outcome T (Error D)))
  call_back cb [] = returned []
  call_back cb (o ∷ os) = do calls ← cb o; rest ← call_back cb os; returned (calls ++ rest)

module _ {T D : Type 0} where
  called-once :
      (lacks : Bool) (v : Option T) (r : Result (Outcome T (Error D)))
      → lacks ≡ false
      → Decides lacks v r
      → Calls 1 (call r)
  unfolding call
  called-once false none (returned o) e h = refl
  called-once false none (thrown what) e h = absurd h
  called-once false none undefined e h = absurd h
  called-once false (some t) (returned o) e h = refl
  called-once false (some t) (thrown what) e h = absurd h
  called-once false (some t) undefined e h = absurd h
  called-once true v r e h = ground arith

module _ {T D : Type 0} where
  one-Calls :
      (n : ℕ) (r : Result (List (Outcome T (Error D))))
      → Calls n r
      → Calls n (r >>= λ calls. returned [] >>= λ rest. returned (calls ++ rest))
  one-Calls n (returned calls) h = rw (append-nil calls) h
  one-Calls n (thrown what) h = h
  one-Calls n undefined h = h

module _ {J T : Type 0} (D : Type 0) ⦃fl : Floating D⦄ (json : Json J T) where
  parsed-once :
      (body : String)
      → lacks_data json body ≡ false
      → Calls {D = D} 1 (call (parse_to_outcome json body))
  parsed-once body has =
      called-once (lacks_data json body) (body_value json body) (parse_to_outcome json body) has
        (parse_to_outcome-Decides D json body)

  default-once : (r : Response) → Calls {D = D} 1 (default_case json r)
  unfolding default_case networking_error with_value Order.value Order.put Order.value_lt
      Order.same_type_lt Order.is_basic_type Order.type_number failed
  default-once r = refl

  -- A callback that hears what it should of every result whose body does not lack its data.
  Hears :
      (Response → ℕ) → (Outcome Response (Error D) → Result (List (Outcome T (Error D)))) → Type 0
  Hears often cb =
      ((e : Error D) → Calls 1 (cb (error e)))
      × ((r : Response) → lacks_data json r.body ≡ false → Calls (often r) (cb (value r)))

  on_class-Calls :
      (c : Classification) (r : Response)
      → lacks_data json r.body ≡ false
      → Calls {D = D} (hears c) (on_class json c r)
  unfolding on_class
  on_class-Calls informational r has = refl
  on_class-Calls redirection r has = refl
  on_class-Calls success r has = parsed-once r.body has
  on_class-Calls client_error r has = parsed-once r.body has
  on_class-Calls server_error r has = parsed-once r.body has
  on_class-Calls unclassified r has = default-once r

  described-Rejects : (body : String) → Rejects {T = T} {D = D} (described json body)
  unfolding described
  described-Rejects body = lift-Rejects (json.parse body) _ (λ j.
      if-Rejects _ _ _ (text_at-Rejects D json "error_description" j _ (λ m. error-Rejects T _))
        (error-Rejects T _))

  rejected-once :
      (throws : Outcome T (Error D) → Bool) (r : Result (Outcome T (Error D)))
      → Rejects r
      → Calls (1 + repeated throws r) (elim r [
        | returned o ↦ returned (if throws o then o ∷ generic json ∷ [] else o ∷ [])
        | thrown what ↦ returned (generic json ∷ [])
        | undefined ↦ undefined
      ])
  unfolding Rejects Judges
  rejected-once throws (returned o) h = elim (Bool-cases (throws o)) [
    | inl e ↦ rw e refl
    | inr e ↦ rw e refl
  ]
  rejected-once throws (thrown what) h = refl
  rejected-once throws undefined h = h

  client_error-once :
      (throws : Outcome T (Error D) → Bool) (body : String)
      → Calls {D = D} (1 + repeated throws (described json body)) (on_client_error json throws body)
  unfolding on_client_error
  client_error-once throws body =
      rejected-once throws (described json body) (described-Rejects body)

  -- How often the caller behind `authenticate_with_password` is called for a response.
  abbrev pub hears_class : (Outcome T (Error D) → Bool) → Classification → Response → ℕ
  hears_class throws client_error r = 1 + repeated throws (described json r.body)
  hears_class throws c r = hears c

  abbrev pub hears_password : (Outcome T (Error D) → Bool) → Response → ℕ
  hears_password throws r = hears_class throws (classify r.status) r

  on_password_class-Calls :
      (throws : Outcome T (Error D) → Bool) (c : Classification) (r : Response)
      → lacks_data json r.body ≡ false
      → Calls {D = D} (hears_class throws c r) (on_password_class json throws c r)
  unfolding on_password_class
  on_password_class-Calls throws informational r has = refl
  on_password_class-Calls throws redirection r has = refl
  on_password_class-Calls throws success r has = parsed-once r.body has
  on_password_class-Calls throws client_error r has = client_error-once throws r.body
  on_password_class-Calls throws server_error r has = parsed-once r.body has
  on_password_class-Calls throws unclassified r has = default-once r

  jsend-Hears : Hears (λ r. hears (classify r.status)) (jsend_parsing_request_callback json)
  unfolding Hears jsend_parsing_request_callback
  jsend-Hears = (λ e. refl, λ r has. on_class-Calls (classify r.status) r has)

  password-Hears :
      (throws : Outcome T (Error D) → Bool)
      → Hears (hears_password throws) (authenticate_with_password_callback json throws)
  unfolding Hears authenticate_with_password_callback
  password-Hears throws =
      (λ e. refl, λ r has. on_password_class-Calls throws (classify r.status) r has)

  verdict-Calls :
      (often : Response → ℕ) (cb : Outcome Response (Error D) → Result (List (Outcome T (Error D))))
      (m : Message) (n : ℕ) (ecs : List Completion)
      → Hears often cb
      → lacks_data json m.body ≡ false
      → Calls (heard {D = D} often (verdict m n ecs)) (cb (verdict m n ecs))
  unfolding Hears response
  verdict-Calls often cb m zero ecs h has = h.1 (response m) has
  verdict-Calls often cb m (suc n) [] h has = h.1 (response m) has
  verdict-Calls often cb m (suc n) (some ec ∷ ecs) h has = h.0 (wrap_error_code ec)
  verdict-Calls often cb m (suc n) (none ∷ ecs) h has = verdict-Calls often cb m n ecs h has

  run-Calls :
      (often : Response → ℕ) (cb : Outcome Response (Error D) → Result (List (Outcome T (Error D))))
      (m : Message) (encrypting : Bool) (ecs : List Completion)
      → Hears often cb
      → operations encrypting ≤ length ecs
      → lacks_data json m.body ≡ false
      → Calls
          (heard {D = D} often (verdict m (operations encrypting) ecs))
          (call_back cb (run m ecs (begin encrypting)).results)
  run-Calls often cb m encrypting ecs h enough has = rw (run-begin m encrypting ecs enough) (
      one-Calls _ (cb (verdict m (operations encrypting) ecs))
        (verdict-Calls often cb m (operations encrypting) ecs h has))

  -- Once the operations of a request have ended, the caller behind either callback was called exactly
  -- once, for an error, a response of a status from 200 to 299 or from 400, or one below 100, and never
  -- for a response of a status from 100 to 199 or from 300 to 399; but behind authenticate_with_password
  -- it was called twice for a status from 400 to 499, if it throws for the error that the body
  -- describes. The body must not be one whose status is success and that has no data.
  pub run-begin-Calls :
      (throws : Outcome T (Error D) → Bool) (m : Message) (encrypting : Bool)
      (ecs : List Completion)
      → operations encrypting ≤ length ecs
      → lacks_data json m.body ≡ false
      → Calls {T = T} {D = D}
          (heard {D = D} (λ r. hears (classify r.status)) (verdict m (operations encrypting) ecs))
          (call_back (jsend_parsing_request_callback json) (run m ecs (begin encrypting)).results)
        × Calls {T = T} {D = D}
            (heard {D = D} (hears_password throws) (verdict m (operations encrypting) ecs))
            (call_back
              (authenticate_with_password_callback json throws)
              (run m ecs (begin encrypting)).results)
  run-begin-Calls throws m encrypting ecs enough has = (
    run-Calls _ (jsend_parsing_request_callback json) m encrypting ecs jsend-Hears enough has,
    run-Calls _ (authenticate_with_password_callback json throws) m encrypting ecs
        (password-Hears throws) enough has,
  )
