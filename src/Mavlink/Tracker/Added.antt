-- ===== src/Mavlink/Tracker/Added.antt =====
-- Runs of messages: each system id is announced once.
use platform_sdk.Base.{
  ℕ, suc, ◌+◌, Bool, false, ◌==◌, ◌&&◌, not, ◌||◌, ◌≡◌, refl, Option, none, some, ◌>>=◌, List, [],
  ◌∷◌, ◌++◌, map, if◌then◌else◌, arith, is_some, ℕ_discrete,
}
use platform_sdk.Mavlink.Message.{Mavlink}
use platform_sdk.Mavlink.Vehicle.{Vehicle}
use platform_sdk.Mavlink.Tracker.{VehicleTracker, TrackerUpdate, find, run}
use platform_sdk.Mavlink.Tracker.Frame.{IsFiled, Receives, update-Receives}

-- How often one monitor is told of a system id.
abbrev pub told : ℕ → ℕ → List (ℕ × ℕ) → ℕ
told m k [] = 0
told m k ((a, j) ∷ rest) = if a == m && j == k then suc (told m k rest) else told m k rest

abbrev pub occurs : ℕ → List ℕ → ℕ
occurs a [] = 0
occurs a (b ∷ bs) = if b == a then suc (occurs a bs) else occurs a bs

told-append : (m k : ℕ) (xs ys : List (ℕ × ℕ)) → told m k (xs ++ ys) ≡ told m k xs + told m k ys
told-append m k [] ys = omega arith
told-append m k ((a, j) ∷ xs) ys = ground (arith, told-append m k xs ys)

told-map :
    (m k j : ℕ) (ms : List ℕ)
    → told m k (map (λ a. (a, j)) ms) ≡ (if j == k then occurs m ms else 0)
told-map m k j [] = ground arith
told-map m k j (a ∷ ms) = ground (arith, told-map m k j ms)

-- A message of that sender is among them.
abbrev pub heard : {M : Type 0} → (M → ℕ) → ℕ → List M → Bool
heard sysid k [] = false
heard sysid k (msg ∷ msgs) = sysid msg == k || heard sysid k msgs

module _ {M D : Type 0} ⦃mav : Mavlink M D⦄ (registers : ℕ → ℕ → List ℕ) where
  -- The run goes through, and each monitor was told of exactly the senders that are new.
  abbrev pub Announces :
      ℕ → ℕ → List M → VehicleTracker D → Option (VehicleTracker D × List (ℕ × ℕ)) → Type 0
  Announces m k msgs t none = ⊥
  Announces m k msgs t (some (t', added)) = told m k added ≡ (
      if heard mav.sysid k msgs && not (is_some (find k t.vehicles))
      then occurs m t.monitors
      else 0)

  found-after :
      (k : ℕ) (msg : M) (v : Vehicle D) (t : VehicleTracker D) (u : TrackerUpdate D)
      → Receives registers msg v t u
      → is_some (find k u.tracker.vehicles) ≡ (mav.sysid msg == k || is_some (find k t.vehicles))
  found-after k msg v t u r = elim (ℕ_discrete k (mav.sysid msg)) [
    | yes same ↦ rw same (rw r.handled (ground arith))
    | no other ↦ rw (r.others k other) (ground arith)
  ]

  announce :
      (m k : ℕ) (msg : M) (v : Vehicle D) (msgs : List M) (t : VehicleTracker D)
      (u : TrackerUpdate D) (o : Option (VehicleTracker D × List (ℕ × ℕ)))
      → u.added ≡ (
          if is_some (find (mav.sysid msg) t.vehicles)
          then []
          else map (λ a. (a, mav.sysid msg)) t.monitors)
      → Receives registers msg v t u
      → Announces m k msgs u.tracker o
      → Announces m k (msg ∷ msgs) t (o >>= λ (t', added). some (t', u.added ++ added))
  announce m k msg v msgs t u none a r h = absurd h
  announce m k msg v msgs t u (some (t', added)) a r h = ground (
    arith,
    told-append m k u.added added,
    told-map m k (mav.sysid msg) t.monitors,
    found-after k msg v t u r,
    r.monitors,
  )

  -- From a tracker whose vehicles are filed under their own ids, a run of messages goes through,
  -- and each monitor is told of a system id once for each time that it is registered, if the id is
  -- among the senders and was not on file, and is not told of it otherwise.
  pub run-Announces :
      (m k : ℕ) (msgs : List M) (t : VehicleTracker D)
      → IsFiled t.vehicles
      → Announces m k msgs t (run registers msgs t)
  unfolding run
  run-Announces m k [] t f = refl
  run-Announces m k (msg ∷ msgs) t f =
      let (u, q, a, r) = update-Receives registers msg t f in
      rw q (
        announce m k msg _ msgs t u (run registers msgs u.tracker) a r
          (run-Announces m k msgs u.tracker r.filed))
