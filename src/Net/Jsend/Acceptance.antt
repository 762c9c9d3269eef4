-- ===== src/Net/Jsend/Acceptance.antt =====
-- Which documents give a value, and which give no outcome.
use platform_sdk.Base.{
  String, Bool, true, false, ◌&&◌, ◌||◌, not, ◌≡◌, refl, Option, none, some, inl, inr, Bool-cases,
  if◌then◌else◌,
}
use platform_sdk.Core.Floating.{Floating}
use platform_sdk.Core.Error.{Error}
use platform_sdk.Core.Error.Order
use platform_sdk.Core.Outcome.{Outcome, value, error}
use platform_sdk.Net.Jsend.{
  Result, returned, thrown, undefined, ◌>>=◌, Json, lift, failed, describe, with_value, index,
  text_at, failure, error_status, not_formatted, with_status, without_status, to_outcome, caught,
  parse_to_outcome,
}
use platform_sdk.Net.Jsend.Rejection.{
  Decides, Judges, Rejects, error-Rejects, if-Rejects, text_at-Rejects, failure-Rejects,
  error_status-Rejects, not_formatted-Rejects,
}

abbrev result_of : {A : Type 0} → Outcome A String → Option A
result_of (value a) = some a
result_of (error what) = none

module _ {J T : Type 0} (json : Json J T) where
  -- The value of a document: its data, where its status is success, or itself, where it has no
  -- status and none of the keys that stand for an error.
  abbrev pub document_value : J → Option T
  document_value j =
      if json.count "status" j
      then (elim (json.at "status" j) [
        | error what ↦ none
        | value s ↦
            if json.equals s "success" && json.count "data" j
            then (elim (json.at "data" j) [ error what ↦ none | value d ↦ result_of (json.get d) ])
            else none
      ])
      else if json.count "error" j || json.count "msg" j || json.count "message" j
      then none
      else result_of (json.get j)

  -- Its status is success and it has no data.
  abbrev pub document_lacks_data : J → Bool
  document_lacks_data j = json.count "status" j && elim (json.at "status" j) [
    | error what ↦ false
    | value s ↦ json.equals s "success" && not (json.count "data" j)
  ]

  abbrev pub body_value : String → Option T
  body_value body = elim (json.parse body) [ error what ↦ none | value j ↦ document_value j ]

  abbrev pub lacks_data : String → Bool
  lacks_data body = elim (json.parse body) [ error what ↦ false | value j ↦ document_lacks_data j ]

module _ {J T : Type 0} (D : Type 0) ⦃fl : Floating D⦄ (json : Json J T) where
  rest-Rejects :
      (s j : J)
      → Rejects {D = D} (
          if json.equals s "fail"
          then failure json j
          else if json.equals s "error"
          then error_status json j
          else not_formatted json j)
  rest-Rejects s j =
      if-Rejects _ _ _ (failure-Rejects D json j)
        (if-Rejects _ _ _ (error_status-Rejects D json j) (not_formatted-Rejects D json j))

  got-Judges :
      (o : Outcome T String)
      → Judges {D = D} false (result_of o) (lift o >>= λ t. returned (value t))
  unfolding lift Judges
  got-Judges (value t) = refl
  got-Judges (error what) = tt

  at-Judges :
      (o : Outcome J String)
      → Judges {D = D} false
          (elim o [ error what ↦ none | value d ↦ result_of (json.get d) ])
          (lift o >>= λ d. lift (json.get d) >>= λ t. returned (value t))
  unfolding lift Judges
  at-Judges (value d) = got-Judges (json.get d)
  at-Judges (error what) = tt

  success-Judges :
      (s j : J)
      → Judges {D = D}
          (json.equals s "success" && not (json.count "data" j))
          (if json.equals s "success" && json.count "data" j
            then (elim (json.at "data" j) [ error what ↦ none | value d ↦ result_of (json.get d) ])
            else none)
          (if json.equals s "success"
            then (index json "data" j >>= λ d. lift (json.get d) >>= λ t. returned (value t))
            else if json.equals s "fail"
            then failure json j
            else if json.equals s "error"
            then error_status json j
            else not_formatted json j)
  unfolding index Judges Rejects
  success-Judges s j = elim (Bool-cases (json.equals s "success")) [
    | inl succeeds ↦ elim (Bool-cases (json.count "data" j)) [
      | inl has ↦ rw (succeeds, has) (at-Judges (json.at "data" j))
      | inr lacks ↦ rw (succeeds, lacks) tt
    ]
    | inr fails ↦ rw fails (rest-Rejects s j)
  ]

  status-Judges :
      (o : Outcome J String) (j : J)
      → json.at "status" j ≡ o
      → json.count "status" j ≡ true
      → Judges {D = D}
          (elim o [
            | error what ↦ false
            | value s ↦ json.equals s "success" && not (json.count "data" j)
          ])
          (elim o [
            | error what ↦ none
            | value s ↦
                if json.equals s "success" && json.count "data" j
                then (elim (json.at "data" j) [
                  | error what ↦ none
                  | value d ↦ result_of (json.get d)
                ])
                else none
          ])
          (with_status json j)
  unfolding with_status index lift
  status-Judges (value s) j e has = rw (has, e) (success-Judges s j)
  status-Judges (error what) j e has = rw (has, e) (unfold Judges in tt)

  text_at-Judges :
      (key : String) (j : J)
      → Judges {T = T} {D = D} false none (text_at json key j >>= λ m. returned (error (failed m)))
  unfolding Rejects
  text_at-Judges key j =
      text_at-Rejects D json key j (λ m. returned (error (failed m))) (λ m. error-Rejects T _)

  without_status-Judges :
      (j : J)
      → Judges {D = D} false
          (if json.count "error" j || json.count "msg" j || json.count "message" j
            then none
            else result_of (json.get j))
          (without_status json j)
  unfolding without_status
  without_status-Judges j = elim (Bool-cases (json.count "error" j)) [
    | inl has ↦ rw has (text_at-Judges "error" j)
    | inr lacks ↦ elim (Bool-cases (json.count "msg" j)) [
      | inl has ↦ rw (lacks, has) (text_at-Judges "msg" j)
      | inr none_here ↦ elim (Bool-cases (json.count "message" j)) [
        | inl has ↦ rw (lacks, none_here, has) (text_at-Judges "message" j)
        | inr plain ↦ rw (lacks, none_here, plain) (got-Judges (json.get j))
      ]
    ]
  ]

  to_outcome-Judges :
      (j : J)
      → Judges {D = D} (document_lacks_data json j) (document_value json j) (to_outcome json j)
  unfolding to_outcome
  to_outcome-Judges j = elim (Bool-cases (json.count "status" j)) [
    | inl has ↦ rw has (status-Judges (json.at "status" j) j refl has)
    | inr lacks ↦ rw lacks (without_status-Judges j)
  ]

  -- The exceptions become errors.
  caught-Decides :
      (body : String) (lacks : Bool) (v : Option T) (r : Result (Outcome T (Error D)))
      → Judges lacks v r
      → Decides lacks v (elim r [
        | returned o ↦ returned o
        | thrown what ↦ caught json what body
        | undefined ↦ undefined
      ])
  unfolding Judges caught with_value Order.value Order.put describe failed
  caught-Decides body false none (returned o) h = h
  caught-Decides body false none (thrown what) h = tt
  caught-Decides body false none undefined h = h
  caught-Decides body false (some t) (returned o) h = h
  caught-Decides body false (some t) (thrown what) h = absurd h
  caught-Decides body false (some t) undefined h = h
  caught-Decides body true v (returned o) h = h
  caught-Decides body true v (thrown what) h = absurd h
  caught-Decides body true v undefined h = h

  parsed-Decides :
      (body : String) (o : Outcome J String)
      → Decides {D = D}
          (elim o [ error what ↦ false | value j ↦ document_lacks_data json j ])
          (elim o [ error what ↦ none | value j ↦ document_value json j ])
          (elim (lift o >>= to_outcome json) [
            | returned r ↦ returned r
            | thrown what ↦ caught json what body
            | undefined ↦ undefined
          ])
  unfolding lift
  parsed-Decides body (value j) =
      caught-Decides body (document_lacks_data json j) (document_value json j) (to_outcome json j)
        (to_outcome-Judges j)
  parsed-Decides body (error what) =
      caught-Decides body false none (thrown what) (unfold Judges in tt)

  -- The body of a response gives the value that its document stands for, if there is one, and
  -- otherwise an error: no exception gets out, and the result is defined, except where the status
  -- is success and there is no data. Then it is undefined.
  pub parse_to_outcome-Decides :
      (body : String)
      → Decides {D = D} (lacks_data json body) (body_value json body) (parse_to_outcome json body)
  unfolding parse_to_outcome
  parse_to_outcome-Decides body = parsed-Decides body (json.parse body)
