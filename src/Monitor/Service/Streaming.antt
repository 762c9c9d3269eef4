-- ===== src/Monitor/Service/Streaming.antt =====
-- Who is subscribed, and who listens.
use platform_sdk.Base.{
  ℕ, suc, ◌==◌, ◌≤◌, ◌≡◌, subst, Bool, true, false, Option, none, some, ◌>>=◌, List, [], ◌∷◌, arith,
  Option-cases, inl, inr,
}
use platform_sdk.Monitor.FanOut.{member, member-subscribe, member-unsubscribe}
use platform_sdk.Monitor.Service.{
  State, ready, streaming, finished, Service, start_listening, start, cancel, proceed_in, proceed,
  update,
}

abbrev pub is_streaming : Option State → Bool
is_streaming (some streaming) = true
is_streaming _ = false

abbrev pub is_ready : Option State → Bool
is_ready (some ready) = true
is_ready _ = false

-- The library's events: an operation of an invocation is done, or the traffic monitor has an update.
pub data Event (U : Type 0) : Type 0 where
  proceeds : ℕ → Bool → Event U
  updates : U → Event U

module _ {U : Type 0} where
  -- The subscribers are the invocations that stream, and one invocation, the latest, listens.
  pub record IsServing (s : Service U) : Type 0 where
    pub subscribed : (k : ℕ) → member k s.subscribers ≡ is_streaming (s.states k)
    pub listens : (k : ℕ) → is_ready (s.states k) ≡ (suc k == s.next)
    pub fresh : (k : ℕ) → s.next ≤ k → s.states k ≡ none

  unfoldable pub step : Event U → Service U → Option (Service U)
  step (proceeds i result) s = proceed i result s
  step (updates u) s = some (update u s)

  unfoldable pub run : List (Event U) → Service U → Option (Service U)
  run [] s = some s
  run (e ∷ es) s = do t ← step e s; run es t

  start-IsServing : IsServing start
  unfolding start start_listening
  start-IsServing = record {
    subscribed = λ k. ground arith;
    listens = λ k. ground arith;
    fresh = λ k h. ground arith;
  }

  proceed_in-IsServing :
      (st : State) (i : ℕ) (result : Bool) (s : Service U)
      → s.states i ≡ some st
      → IsServing s
      → IsServing (proceed_in st i result s)
  unfolding proceed_in start_listening cancel
  proceed_in-IsServing ready i true s e v =
      let this = rw e at (v.listens i) in
      record {
        subscribed =
            λ k. ground (arith, v.subscribed k, v.fresh s.next, member-subscribe k i s.subscribers);
        listens = λ k. ground (arith, v.listens k);
        fresh = λ k h. ground (arith, v.fresh k);
      }
  proceed_in-IsServing ready i false s e v =
      let this = rw e at (v.listens i) in
      record {
        subscribed = λ k. ground (arith, v.subscribed k, v.subscribed i, v.fresh s.next);
        listens = λ k. ground (arith, v.listens k);
        fresh = λ k h. ground (arith, v.fresh k);
      }
  proceed_in-IsServing streaming i true s e v = v
  proceed_in-IsServing streaming i false s e v =
      let this = rw e at (v.listens i) in
      record {
        subscribed = λ k. ground (arith, v.subscribed k, member-unsubscribe k i s.subscribers);
        listens = λ k. ground (arith, v.listens k);
        fresh = λ k h. ground (arith, v.fresh k, v.fresh i);
      }
  proceed_in-IsServing finished i result s e v = record {
    subscribed = λ k. ground (arith, v.subscribed k, v.subscribed i);
    listens = λ k. ground (arith, v.listens k, v.listens i);
    fresh = λ k h. ground (arith, v.fresh k h);
  }

  -- The service stays in order, where it goes on.
  abbrev pub Serving : Option (Service U) → Type 0
  Serving none = Unit {0}
  Serving (some s) = IsServing s

  step-Serving : (e : Event U) (s : Service U) → IsServing s → Serving (step e s)
  unfolding step proceed update
  step-Serving (updates u) s v = record {
    subscribed = v.subscribed;
    listens = v.listens;
    fresh = v.fresh;
  }
  step-Serving (proceeds i result) s v = elim (Option-cases (s.states i)) [
    | inl q ↦ rw q tt
    | inr (st, q) ↦ rw q (proceed_in-IsServing st i result s q v)
  ]

  run_from-Serving : (es : List (Event U)) (s : Service U) → IsServing s → Serving (run es s)
  unfolding run
  run_from-Serving [] s v = v
  run_from-Serving (e ∷ es) s v = elim (Option-cases (step e s)) [
    | inl q ↦ rw q tt
    | inr (t, q) ↦ rw q (run_from-Serving es t (rw q at (step-Serving e s v)))
  ]

  -- From the start of the service, after any events in which `proceed` is only called of invocations that
  -- were created and not yet deleted: the subscribers of the traffic monitor are exactly the
  -- invocations that stream, exactly the latest invocation waits for a call, and no invocation is
  -- there that was not created.
  pub run-IsServing : (es : List (Event U)) {s : Service U} → run es start ≡ some s → IsServing s
  run-IsServing es q = subst Serving q (run_from-Serving es start start-IsServing)
