-- ===== src/Net/Jsend/Rejection.antt =====
-- The branches that end in an error or an exception.
use platform_sdk.Base.{String, Bool, true, false, ◌≡◌, Option, none, some, if◌then◌else◌}
use platform_sdk.Core.Floating.{Floating}
use platform_sdk.Core.Error.{Error}
use platform_sdk.Core.Error.Order
use platform_sdk.Core.Outcome.{Outcome, value, error}
use platform_sdk.Net.Jsend.{
  Result, returned, thrown, undefined, ◌>>=◌, Json, lift, failed, with_value, text_at, with_data,
  failure, error_status, not_formatted,
}

module _ {T D : Type 0} where
  -- Undefined, or else an error, or else that value.
  abbrev pub Decides : Bool → Option T → Result (Outcome T (Error D)) → Type 0
  Decides true v undefined = Unit
  Decides false none (returned (error e)) = Unit
  Decides false (some t) (returned (value u)) = t ≡ u
  Decides _ _ _ = ⊥

  -- As `Decides`, or an exception where there is no value.
  unfoldable pub Judges : Bool → Option T → Result (Outcome T (Error D)) → Type 0
  Judges false none (thrown what) = Unit
  Judges lacks v r = Decides lacks v r

  unfoldable pub Rejects : Result (Outcome T (Error D)) → Type 0
  Rejects r = Judges false none r

module _ (T : Type 0) {D : Type 0} where
  pub error-Rejects : (e : Error D) → Rejects {T = T} (returned (error e))
  unfolding Rejects Judges
  error-Rejects e = tt

module _ {T D : Type 0} where
  pub if-Rejects :
      (b : Bool) (r s : Result (Outcome T (Error D)))
      → Rejects r
      → Rejects s
      → Rejects (if b then r else s)
  if-Rejects true r s h k = h
  if-Rejects false r s h k = k

  pub lift-Rejects :
      {A : Type 0} (o : Outcome A String) (f : A → Result (Outcome T (Error D)))
      → ((a : A) → Rejects (f a))
      → Rejects (lift o >>= f)
  unfolding lift Rejects Judges
  lift-Rejects (value a) f h = h a
  lift-Rejects (error what) f h = tt

  chain-Rejects :
      {A B : Type 0} (o : Outcome A String) (g : A → Outcome B String)
      (f : B → Result (Outcome T (Error D)))
      → ((b : B) → Rejects (f b))
      → Rejects (lift o >>= (λ m. lift (g m)) >>= f)
  unfolding lift Rejects Judges
  chain-Rejects (value a) g f h = lift-Rejects (g a) f h
  chain-Rejects (error what) g f h = tt

module _ {J T : Type 0} (D : Type 0) ⦃fl : Floating D⦄ (json : Json J T) where
  pub text_at-Rejects :
      (key : String) (j : J) (f : String → Result (Outcome T (Error D)))
      → ((m : String) → Rejects (f m))
      → Rejects (text_at json key j >>= f)
  unfolding text_at
  text_at-Rejects key j f h = chain-Rejects (json.at key j) json.get_string f h

  with_data-Rejects : (message : String) (j : J) → Rejects {D = D} (with_data json message j)
  unfolding with_data
  with_data-Rejects message j =
      if-Rejects _ _ _ (lift-Rejects (json.at "data" j) _ (λ d. error-Rejects T _))
        (error-Rejects T _)

  pub failure-Rejects : (j : J) → Rejects {D = D} (failure json j)
  unfolding failure
  failure-Rejects j = if-Rejects _ _ _ (text_at-Rejects "message" j _ (λ m. error-Rejects T _)) (
      lift-Rejects (json.at "data" j) _ (λ d.
        if-Rejects _ _ _ (text_at-Rejects "message" d _ (λ m. error-Rejects T _))
          (with_data-Rejects _ j)))

  pub error_status-Rejects : (j : J) → Rejects {D = D} (error_status json j)
  unfolding error_status
  error_status-Rejects j =
      if-Rejects _ _ _ (text_at-Rejects "message" j _ (λ m. with_data-Rejects m j))
        (with_data-Rejects _ j)

  pub not_formatted-Rejects : (j : J) → Rejects {D = D} (not_formatted json j)
  unfolding not_formatted with_value Order.value Order.put failed Rejects Judges
  not_formatted-Rejects j = tt
