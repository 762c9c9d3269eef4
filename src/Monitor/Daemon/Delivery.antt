-- ===== src/Monitor/Daemon/Delivery.antt =====
-- Callbacks with one address reach one submitter.
use platform_sdk.Base.{
  ℕ, ◌≡◌, ◌≢◌, refl, Option, none, some, ◌>>=◌, List, [], ◌∷◌, map, arith, All, ◌∙◌, Option-cases,
  inl, inr,
}
use platform_sdk.Core.Floating.{Floating}
use platform_sdk.Mavlink.Message.{Mavlink, MessageId}
use platform_sdk.Mavlink.Vehicle
use platform_sdk.Mavlink.Vehicle.{Vehicle, Callback}
use platform_sdk.Monitor.Submitter.Types.{Env, Submitter}
use platform_sdk.Monitor.Submitter.Events
use platform_sdk.Monitor.Submitter.Events.{Event, step}
use platform_sdk.Monitor.VehicleMonitor.{react, react_all}
use platform_sdk.Monitor.Daemon.{store, signal, feed}

module _ {D : Type 0} where
  -- The submitter at `k` became what `o` says, and no other changed; if `o` is none, neither is the
  -- whole defined.
  abbrev pub Delivers :
      ℕ
      → (ℕ → Option (Submitter D))
      → Option (ℕ → Option (Submitter D))
      → Option (Submitter D)
      → Type 0
  Delivers k before none none = Unit
  Delivers k before none (some s) = ⊥
  Delivers k before (some after) none = ⊥
  Delivers k before (some after) (some s) =
      (after k ≡ some s) × ((j : ℕ) → j ≢ k → after j ≡ before j)

  abbrev pub Addressed : ℕ → List (ℕ × Callback D) → Type 0
  Addressed k cs = All (λ (c : ℕ × Callback D). c.0 ≡ k) cs

  map-Addressed : (k : ℕ) (c : Callback D) → Addressed k (map (λ m. (m, c)) (k ∷ []))
  map-Addressed k c = (refl, tt)

module _ {D : Type 0} where
  Delivers-widen :
      (k : ℕ) (before after : ℕ → Option (Submitter D)) (o : Option (ℕ → Option (Submitter D)))
      (p : Option (Submitter D))
      → ((j : ℕ) → j ≢ k → after j ≡ before j)
      → Delivers k after o p
      → Delivers k before o p
  Delivers-widen k before after none none others h = tt
  Delivers-widen k before after none (some s) others h = h
  Delivers-widen k before after (some later) none others h = h
  Delivers-widen k before after (some later) (some s) others h =
      (h.0, λ j away. h.1 j away ∙ others j away)

  Delivers-bind :
      (k : ℕ) (before : ℕ → Option (Submitter D)) (o : Option (ℕ → Option (Submitter D)))
      (p : Option (Submitter D))
      (f : (ℕ → Option (Submitter D)) → Option (ℕ → Option (Submitter D)))
      (g : Submitter D → Option (Submitter D))
      → Delivers k before o p
      → ((after : ℕ → Option (Submitter D)) (s : Submitter D)
          → after k ≡ some s
          → Delivers k after (f after) (g s))
      → Delivers k before (o >>= f) (p >>= g)
  Delivers-bind k before none none f g h next = tt
  Delivers-bind k before none (some s) f g h next = absurd h
  Delivers-bind k before (some after) none f g h next = absurd h
  Delivers-bind k before (some after) (some s) f g h next =
      Delivers-widen k before after (f after) (g s) h.1 (next after s h.0)

module _ {M D : Type 0} ⦃mav : Mavlink M D⦄ where
  -- A vehicle with one monitor calls that one.
  pub dispatch-Addressed :
      (k : ℕ) (i : MessageId) (msg : M) (v : Vehicle D)
      → v.monitors ≡ k ∷ []
      → Addressed k (Vehicle.dispatch i msg v).1
  unfolding Vehicle.dispatch Vehicle.handle_msg_heartbeat Vehicle.handle_msg_global_position_int
      Vehicle.handle_msg_mission
  dispatch-Addressed k i msg v e = rw e (ground arith)

module _ {D : Type 0} ⦃fl : Floating D⦄ (env : Env) where
  stored-Delivers :
      (k : ℕ) (submitters : ℕ → Option (Submitter D)) (o : Option (Submitter D))
      → Delivers k submitters (o >>= λ s'. some (store k s' submitters)) o
  unfolding store
  stored-Delivers k submitters none = tt
  stored-Delivers k submitters (some s) = (ground arith, λ j h. ground arith)

  pub signal-Delivers :
      (k : ℕ) (e : Event D) (submitters : ℕ → Option (Submitter D)) (s : Submitter D)
      → submitters k ≡ some s
      → Delivers k submitters (signal env k (some e) submitters) (step (env, e) s)
  unfolding signal
  signal-Delivers k e submitters s q =
      let called : signal env k (some e) submitters
          ≡ (step (env, e) s >>= λ s'. some (store k s' submitters)) =
        rw (signal, q) refl in
      rw called (stored-Delivers k submitters (step (env, e) s))

  -- Callbacks of one vehicle take its submitter through the events that they stand for.
  pub feed-Delivers :
      (k : ℕ) (cs : List (ℕ × Callback D)) (submitters : ℕ → Option (Submitter D)) (s : Submitter D)
      → Addressed k cs
      → submitters k ≡ some s
      → Delivers k submitters
          (feed env cs submitters)
          (Events.run (map (λ e. (env, e)) (react_all (map (λ c. c.1) cs))) s)
  unfolding feed signal Events.run react_all
  feed-Delivers k [] submitters s a q = (q, λ j away. refl)
  feed-Delivers k ((i, c) ∷ cs) submitters s a q = rw a.0 (elim (Option-cases (react c)) [
    | inl silent ↦ rw (react_all, silent) (feed-Delivers k cs submitters s a.1 q)
    | inr (e, calls) ↦
        rw (react_all, calls)
          (Delivers-bind k submitters (signal env k (some e) submitters) (step (env, e) s)
            (feed env cs) (Events.run (map (λ e. (env, e)) (react_all (map (λ c. c.1) cs))))
            (signal-Delivers k e submitters s q)
            (λ after s' stored. feed-Delivers k cs after s' a.1 stored))
  ])
