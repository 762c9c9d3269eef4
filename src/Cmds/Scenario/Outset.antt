-- ===== src/Cmds/Scenario/Outset.antt =====
-- The whole command: the first calls, and everything after them.
use platform_sdk.Base.{
  ℕ, zero, suc, String, true, ◌&&◌, ltb, ◌+◌, ◌<◌, ◌==◌, ◌≡◌, refl, ◌∙◌, ◌⊎◌, inl, inr, Bool-cases,
  Option, none, some, is_some, List, [], ◌∷◌, ◌++◌, All, All-append_one, length, get_elem?-of_lt,
  if◌then◌else◌, arith,
}
use platform_sdk.Util.CheapRuler.{Reals}
use platform_sdk.Util.ScenarioSimulator.{Participant, User}
use platform_sdk.Util.ScenarioSimulator.Reports.{CanFly}
use platform_sdk.Util.ScenarioSimulator.Runner
use platform_sdk.Cmds.Scenario.{
  Call, Answer, Command, send, authentication_call, request_authentication_for,
}
use platform_sdk.Cmds.Scenario.{initial}
use platform_sdk.Cmds.Scenario.Steps.{request_all, begin, run}
use platform_sdk.Cmds.Scenario.Invariant.{
  stage, Needs, open_at, open_at-append, keyed_at, total, Served, IsHonest, Simulated, Inv,
}
use platform_sdk.Cmds.Scenario.Completion.{run-Goes}

stage-authentication_call :
    (D : Type 0) (device_name pilot : String) (user : Option User)
    → stage {D = D} (authentication_call device_name pilot user) ≡ 1
unfolding authentication_call
stage-authentication_call D device_name pilot none = refl
stage-authentication_call D device_name pilot (some u) = refl

duration_lem : (D : Type 0) (d : Option ℕ) → is_some (initial {D = D} [] d).duration ≡ true
unfolding initial
duration_lem D none = refl
duration_lem D (some d) = refl

module _ {D : Type 0} ⦃r : Reals D⦄ where
  -- The scenario as it is read: nobody has a key.
  abbrev pub IsFresh : Participant D → Type 0
  IsFresh p = p.encryption_key ≡ none

  total-IsFresh : (ps : List (Participant D)) → All IsFresh ps → total ps ≡ 0
  total-IsFresh [] h = refl
  total-IsFresh (p ∷ ps) (h, hs) = ground (arith, total-IsFresh ps hs)

  IsHonest-IsFresh : (ps : List (Participant D)) → All IsFresh ps → All IsHonest ps
  IsHonest-IsFresh [] h = tt
  IsHonest-IsFresh (p ∷ ps) (h, hs) = (λ one. ground arith, IsHonest-IsFresh ps hs)

  keyed_at-IsFresh : (ps : List (Participant D)) (j : ℕ) → All IsFresh ps → keyed_at j ps ≡ 0
  keyed_at-IsFresh [] j h = refl
  keyed_at-IsFresh (p ∷ ps) zero (h, hs) = ground arith
  keyed_at-IsFresh (p ∷ ps) (suc j) (h, hs) = keyed_at-IsFresh ps j hs

  -- The first call for a participant.
  Needs-authentication_call :
      (device_name pilot : String) (user : Option User) (p : Participant D)
      → Needs (authentication_call device_name pilot user) p
  unfolding authentication_call
  Needs-authentication_call device_name pilot none p = tt
  Needs-authentication_call device_name pilot (some u) p = tt

  -- After the calls for the participants before `i`.
  record Begun (i : ℕ) (ps : List (Participant D)) (l : List (ℕ × Call D)) : Type 0 where
    served : All (Served ps) l
    opened : (j : ℕ) → open_at j l ≡ (if ltb j i then 1 else 0)

  request_all_lem :
      (device_name : String) (i m : ℕ) (s : Command D)
      → i + m ≡ length s.participants
      → Begun i s.participants s.pending
      → (l : List (ℕ × Call D)) × (request_all device_name i m s ≡ some (record s { pending = l }))
        × Begun (length s.participants) s.participants l
  unfolding request_all request_authentication_for
  request_all_lem device_name i zero s e h =
      (s.pending, refl, record { served = h.served; opened = λ j. ground (arith, h.opened j) })
  request_all_lem device_name i (suc m) s e h =
      let (p, found) = get_elem?-of_lt s.participants i (omega (arith, e)) in
      let c = authentication_call {D = D} device_name p.pilot p.user in
      let one : stage c ≡ 1 = stage-authentication_call D device_name p.pilot p.user in
      let h' : Begun (i + 1) s.participants (s.pending ++ (i, c) ∷ []) = record {
        served =
            All-append_one (Served s.participants) s.pending (i, c) h.served
              (p, found, Needs-authentication_call device_name p.pilot p.user p);
        opened = λ j. ground (arith, open_at-append j i c s.pending, h.opened j);
      } in
      let (l, goes, h'') =
        request_all_lem device_name (i + 1) m (send i c s) (omega (arith, e)) h' in
      (l, rw found goes, h'')

  -- A scenario of fewer than 2 ^ 32 participants, each with a polygon of two coordinates at least and
  -- none with a key: whatever the services answer and in whatever order, no callback reads a value
  -- that is not there. Until something fails or a flight has ended, each participant has either its
  -- key or exactly one pending call of those that lead to it. The simulation is running exactly when
  -- everybody has a key, and then everybody in it has an authentication, a flight and a key.
  pub begin-run :
      (device_name : String) (ps : List (Participant D)) (duration : Option ℕ)
      (es : List (ℕ × Answer D)) (j : ℕ)
      → All CanFly ps
      → All IsFresh ps
      → length ps < 4294967296
      → j < length ps
      → (s s' : Command D) × (begin device_name ps duration ≡ some s)
        × (run es s ≡ some s')
        × ((s'.context.io_stopped ≡ true) ⊎ (open_at j s'.pending + keyed_at j s'.participants ≡ 1))
        × (is_some s'.runner.simulator ≡ (ltb 0 (length ps) && total s'.participants == length ps))
        × Simulated s'.runner.simulator
  unfolding begin initial Runner.create
  begin-run device_name ps duration es j fly fresh small lt =
      let s₀ = initial {D = D} ps duration in
      let (l, goes, h) =
        request_all_lem device_name 0 (length ps) s₀ (omega arith)
          (record { served = tt; opened = λ j. ground arith }) in
      let first : Inv 0 0 (length ps) (record s₀ { pending = l }) = record {
        len = refl;
        fly = fly;
        lasts = duration_lem D duration;
        calls = h.served;
        once = λ a. ground (arith, h.opened a, keyed_at-IsFresh ps a fresh);
        live = λ _ a below. ground (arith, h.opened a, keyed_at-IsFresh ps a fresh);
        serves = λ _. refl;
        counts = omega (arith, total-IsFresh ps fresh);
        honest = IsHonest-IsFresh ps fresh;
        starts = ground (arith, total-IsFresh ps fresh);
        joins = refl;
        simulated = tt;
        made = refl;
      } in
      let (s', runs, h') = run-Goes (length ps) es (record s₀ { pending = l }) small first in
      (
        record s₀ { pending = l },
        s',
        goes,
        runs,
        elim (Bool-cases s'.context.io_stopped) [
          | inl over ↦ inl over
          | inr goes ↦ inr (ground (arith, h'.live goes j lt))
        ],
        h'.made ∙ h'.starts,
        h'.simulated,
      )
