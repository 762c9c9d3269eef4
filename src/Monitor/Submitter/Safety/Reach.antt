-- ===== src/Monitor/Submitter/Safety/Reach.antt =====
-- The states that a submitter reaches while it is not deactivated.
use platform_sdk.Base.{
  String, Bool, true, false, ◌&&◌, ◌≡◌, refl, sym, ◌∙◌, subst, Bool-cases, inl, inr, Option, none,
  some, is_some, arith,
}
use platform_sdk.Core.Floating.{Floating}
use platform_sdk.Core.Flight.{Credentials}
use platform_sdk.Monitor.Submitter.Types.{Env, Submitter, create}
use platform_sdk.Monitor.Submitter.Calls.{asks_pilot, asks_flights, ends_active, plans, asked}
use platform_sdk.Monitor.Submitter.Events.{Event, step}
use platform_sdk.Monitor.Submitter.Safety.{Inv, Safe}
use platform_sdk.Monitor.Submitter.Safety.Run.{Allowed, has_flight, step-Safe, step_without_flight}

abbrev pub implies : Bool → Bool → Bool
implies true b = b
implies false b = true

module _ {D : Type 0} ⦃fl : Floating D⦄ where
  -- The states of a submitter that was created, from one allowed event to the next.
  pub data Reach (c : Credentials) (aircraft : String) : Submitter D → Type 0 where
    start : Reach c aircraft (create c aircraft)
    next :
        {s t : Submitter D} (env : Env) (e : Event D)
        → Reach c aircraft s
        → Allowed e s
        → step (env, e) s ≡ some t
        → Reach c aircraft t

  create-Inv : (c : Credentials) (aircraft : String) → Inv (create {D = D} c aircraft)
  unfolding create
  create-Inv c aircraft = ground arith

  Reach-Inv : {c : Credentials} {aircraft : String} {s : Submitter D} → Reach c aircraft s → Inv s
  Reach-Inv {c} {aircraft} start = create-Inv c aircraft
  Reach-Inv (next {s} env e r h q) = elim (Bool-cases (has_flight e)) [
    | inl f ↦ subst Safe q (step-Safe env e s (Reach-Inv r) h f)
    | inr f ↦ let lost = step_without_flight env e s f in cc
  ]

  Safe-returns : (o : Option (Submitter D)) → Safe o → is_some o ≡ true
  Safe-returns none h = absurd h
  Safe-returns (some t) h = refl

  -- From every state that a submitter reaches from its creation by events that are activations,
  -- positions, missions that can be planned, and replies to calls that were made: each further such
  -- event returns, with every value there that it reads, exactly if it is not the reply to a submitted
  -- plan that comes without the id of a flight.
  pub Reach-step_returns :
      {c : Credentials} {aircraft : String} {s : Submitter D} (env : Env) (e : Event D)
      → Reach c aircraft s
      → Allowed e s
      → is_some (step (env, e) s) ≡ has_flight e
  Reach-step_returns {s = s} env e r h = elim (Bool-cases (has_flight e)) [
    | inl f ↦ Safe-returns _ (step-Safe env e s (Reach-Inv r) h f) ∙ sym f
    | inr f ↦ rw (step_without_flight env e s f, f) refl
  ]

  -- What the calls that were made and the values that are set say of each other.
  abbrev pub ordered : Submitter D → Bool
  ordered s =
      implies (asked asks_pilot s.sent) (is_some s.authorization)
      && implies (asked asks_flights s.sent) (is_some s.pilot_id)
      && implies (asked ends_active s.sent) (is_some s.active_flights)
      && implies (asked plans s.sent) (is_some s.authorization)
      && implies (is_some s.active_flights) (is_some s.pilot_id)
      && implies (is_some s.pilot_id) (is_some s.authorization)

  Inv-ordered : (s : Submitter D) → Inv s → ordered s ≡ true
  Inv-ordered s v = ground arith

  -- In every state that a submitter reaches from its creation by allowed events (activations,
  -- positions, missions that can be planned, replies to calls that were made), the values are set in
  -- order, and no call was made before the value
  -- that it carries was there: a call for the pilot or for a flight means that the authorization is
  -- set, a search for flights that the pilot is, the end of an active flight that the active flights
  -- are known, which in turn means that the pilot is set, and a set pilot that the authorization is.
  pub Reach-ordered :
      {c : Credentials} {aircraft : String} {s : Submitter D}
      → Reach c aircraft s
      → ordered s ≡ true
  Reach-ordered {s = s} r = Inv-ordered s (Reach-Inv r)
