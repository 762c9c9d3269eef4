-- ===== src/Monitor/Daemon/Shown.antt =====
-- What a daemon holds at each system id.
use platform_sdk.Base.{
  ℕ, ◌==◌, ◌≡◌, ◌≢◌, refl, sym, ap, subst, Option, none, some, ◌>>=◌, [], ◌∷◌, if◌then◌else◌, arith,
  ℕ_discrete, ◌∙◌, Option-cases, inl, inr,
}
use platform_sdk.Core.Floating.{Floating}
use platform_sdk.Mavlink.Vehicle
use platform_sdk.Mavlink.Vehicle.{Vehicle, Callback}
use platform_sdk.Mavlink.Tracker
use platform_sdk.Mavlink.Tracker.{find, TrackerUpdate}
use platform_sdk.Mavlink.Tracker.Frame.{IsFiled}
use platform_sdk.Monitor.Submitter.Types.{Env, Submitter}
use platform_sdk.Monitor.Submitter.Events.{Event, step}
use platform_sdk.Monitor.Daemon.{Daemon, signal, finalize}
use platform_sdk.Monitor.Daemon.Solo.{Pair, answer}
use platform_sdk.Monitor.Daemon.Delivery.{Delivers, signal-Delivers}

module _ {D : Type 0} where
  abbrev pub vehicle_of : Pair D → Option (Vehicle D)
  vehicle_of none = none
  vehicle_of (some (v, s)) = some v

  abbrev pub submitter_of : Pair D → Option (Submitter D)
  submitter_of none = none
  submitter_of (some (v, s)) = some s

  -- Its monitor is the one at the address `k`.
  abbrev pub IsWatched : ℕ → Pair D → Type 0
  IsWatched k none = Unit
  IsWatched k (some (v, s)) = v.monitors ≡ k ∷ []

  -- The daemon holds at each system id what `f` has there, and nothing else.
  pub record Shows (d : Daemon D) (f : ℕ → Pair D) : Type 0 where
    pub monitors : d.tracker.monitors ≡ 0 ∷ []
    pub filed : IsFiled d.tracker.vehicles
    pub vehicles : (k : ℕ) → find k d.tracker.vehicles ≡ vehicle_of (f k)
    pub submitters : (k : ℕ) → d.submitters k ≡ submitter_of (f k)
    pub watched : (k : ℕ) → IsWatched k (f k)

  -- A run goes through exactly when those of all system ids do, and then shows what they come to.
  abbrev pub Refines : Option (Daemon D) → (ℕ → Option (Pair D)) → Type 0
  Refines none f = (k : ℕ) × (f k ≡ none)
  Refines (some d) f = (g : ℕ → Pair D) × ((k : ℕ) → f k ≡ some (g k)) × Shows d g

  pub Refines-along :
      {f g : ℕ → Option (Pair D)} (o : Option (Daemon D))
      → ((k : ℕ) → f k ≡ g k)
      → Refines o g
      → Refines o f
  Refines-along none e (k, fails) = (k, e k ∙ fails)
  Refines-along (some d) e (g, shown, h) = (g, λ k. e k ∙ shown k, h)

  abbrev pub at_key : ℕ → Pair D → (ℕ → Pair D) → ℕ → Pair D
  at_key k p f j = if k == j then p else f j

  -- One input: `o` is what the daemon comes to, `p` what the owner alone does.
  abbrev pub Follows : ℕ → (ℕ → Pair D) → Option (Daemon D) → Option (Pair D) → Type 0
  Follows k f none none = Unit
  Follows k f none (some p) = ⊥
  Follows k f (some d) none = ⊥
  Follows k f (some d) (some p) = Shows d (at_key k p f)

  -- As `Shows`, but for what there is at `k`.
  pub record ShowsOthers (k : ℕ) (d : Daemon D) (f : ℕ → Pair D) : Type 0 where
    pub monitors : d.tracker.monitors ≡ 0 ∷ []
    pub filed : IsFiled d.tracker.vehicles
    pub vehicles : (j : ℕ) → j ≢ k → find j d.tracker.vehicles ≡ vehicle_of (f j)
    pub submitters : (j : ℕ) → j ≢ k → d.submitters j ≡ submitter_of (f j)
    pub watched : (j : ℕ) → j ≢ k → IsWatched j (f j)

  pub Shows-others : (k : ℕ) (d : Daemon D) (f : ℕ → Pair D) → Shows d f → ShowsOthers k d f
  Shows-others k d f h = record {
    monitors = h.monitors;
    filed = h.filed;
    vehicles = λ j away. h.vehicles j;
    submitters = λ j away. h.submitters j;
    watched = λ j away. h.watched j;
  }

  -- What holds of `p` at `k` and of `f` elsewhere holds of both together.
  pub at_key-all :
      (P : ℕ → Pair D → Type 0) (k : ℕ) (p : Pair D) (f : ℕ → Pair D)
      → P k p
      → ((j : ℕ) → j ≢ k → P j (f j))
      → (j : ℕ) → P j (at_key k p f j)
  at_key-all P k p f here others j = elim (ℕ_discrete k j) [
    | yes same ↦ let e : at_key k p f j ≡ p = ground arith in rw e (subst (λ i. P i p) same here)
    | no other ↦ let e : at_key k p f j ≡ f j = ground arith in rw e (others j (λ q. other (sym q)))
  ]

  pub ShowsOthers-with :
      (k : ℕ) (d : Daemon D) (f : ℕ → Pair D) (p : Pair D)
      → ShowsOthers k d f
      → find k d.tracker.vehicles ≡ vehicle_of p
      → d.submitters k ≡ submitter_of p
      → IsWatched k p
      → Shows d (at_key k p f)
  ShowsOthers-with k d f p h vehicle submitter watched = record {
    monitors = h.monitors;
    filed = h.filed;
    vehicles =
        at_key-all (λ j q. find j d.tracker.vehicles ≡ vehicle_of q) k p f vehicle h.vehicles;
    submitters = at_key-all (λ j q. d.submitters j ≡ submitter_of q) k p f submitter h.submitters;
    watched = at_key-all IsWatched k p f watched h.watched;
  }

  -- The submitter of the vehicle `v` at `k` is the only one that changes.
  pub Delivers-Follows :
      (k : ℕ) (v : Vehicle D) (d : Daemon D) (f : ℕ → Pair D)
      (o : Option (ℕ → Option (Submitter D))) (p : Option (Submitter D))
      → ShowsOthers k d f
      → find k d.tracker.vehicles ≡ some v
      → v.monitors ≡ k ∷ []
      → Delivers k d.submitters o p
      → Follows k f (o >>= λ b. some (record d { submitters = b })) (p >>= λ s. some (some (v, s)))
  Delivers-Follows k v d f none none h vehicle watched del = tt
  Delivers-Follows k v d f none (some s) h vehicle watched del = absurd del
  Delivers-Follows k v d f (some b) none h vehicle watched del = absurd del
  Delivers-Follows k v d f (some b) (some s) h vehicle watched del =
      let others : ShowsOthers k (record d { submitters = b }) f = record {
        monitors = h.monitors;
        filed = h.filed;
        vehicles = h.vehicles;
        submitters = λ j away. del.1 j away ∙ h.submitters j away;
        watched = h.watched;
      } in
      ShowsOthers-with k (record d { submitters = b }) f (some (v, s)) others vehicle del.0 watched

  pub finalize-Shows : Shows finalize (λ k. none)
  unfolding finalize Tracker.register_monitor Tracker.empty Vehicle.insert find
  finalize-Shows = record {
    monitors = refl;
    filed = tt;
    vehicles = λ k. refl;
    submitters = λ k. refl;
    watched = λ k. tt;
  }

module _ {D : Type 0} ⦃fl : Floating D⦄ where
  pub replied-Follows :
      (env : Env) (k : ℕ) (e : Event D) (d : Daemon D) (f : ℕ → Pair D)
      → Shows d f
      → Follows k f
          (signal env k (some e) d.submitters >>= λ b. some (record d { submitters = b }))
          (answer env e (f k))
  unfolding signal
  replied-Follows env k e d f h = elim (Option-cases (f k)) [
    | inl unheard ↦
        let nobody : d.submitters k ≡ none = rw (h.submitters k, unheard) refl in
        rw (signal, nobody, unheard)
          (ShowsOthers-with k d f none (Shows-others k d f h) (h.vehicles k ∙ ap vehicle_of unheard)
            nobody tt)
    | inr ((v, s), heard) ↦ rw heard (
        Delivers-Follows k v d f (signal env k (some e) d.submitters) (step (env, e) s)
          (Shows-others k d f h) (h.vehicles k ∙ ap vehicle_of heard)
          (subst (IsWatched k) heard (h.watched k))
          (signal-Delivers env k e d.submitters s (h.submitters k ∙ ap submitter_of heard)))
  ]
