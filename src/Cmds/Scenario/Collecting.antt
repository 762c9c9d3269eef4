-- ===== src/Cmds/Scenario/Collecting.antt =====
-- What the collector stores of a participant keeps the invariant.
use platform_sdk.Base.{
  ℕ, zero, suc, true, ◌&&◌, ltb, ◌+◌, ◌==◌, ◌≡◌, refl, sym, ap, subst, ◌∙◌, Bool-cases, inl, inr,
  some, is_some, List, [], ◌∷◌, All, All-set, All-get_elem?, length-set, get_elem?, get_elem?-set,
  set, if◌then◌else◌, arith,
}
use mathlib.Core.Option.{some-injective}
use platform_sdk.Util.CheapRuler.{Reals}
use platform_sdk.Util.ScenarioSimulator.{Participant}
use platform_sdk.Util.ScenarioSimulator.Runner.{Runner}
use platform_sdk.Util.ScenarioSimulator.Reports.{CanFly}
use platform_sdk.Cmds.Scenario.{
  Call, authenticate_with_password, authenticate_anonymously, get_status_by_polygon,
  create_flight_by_polygon, monitor_traffic, start_flight_communications, schedule_in,
  end_flight_communications, end_flight, Command,
}
use platform_sdk.Cmds.Scenario.Invariant.{
  Needs, Served, keyed, keyed_at, total, IsHonest, Simulated, Inv,
}

module _ {D : Type 0} where
  -- The second value of a participant has what the first has, and is the same area.
  pub record Grows (p p' : Participant D) : Type 0 where
    pub area : p'.geometry ≡ p.geometry
    pub authenticated : is_some p.authentication ≡ true → is_some p'.authentication ≡ true
    pub flown : is_some p.flight ≡ true → is_some p'.flight ≡ true

  Needs-Grows : (c : Call D) {p p' : Participant D} → Grows p p' → Needs c p → Needs c p'
  Needs-Grows (authenticate_with_password _) g h = tt
  Needs-Grows (authenticate_anonymously _) g h = tt
  Needs-Grows (get_status_by_polygon _) g h = tt
  Needs-Grows (create_flight_by_polygon _) g h = g.authenticated h
  Needs-Grows (monitor_traffic _ _) g h = (g.authenticated h.0, g.flown h.1)
  Needs-Grows (start_flight_communications _ _) g h = (g.authenticated h.0, g.flown h.1)
  Needs-Grows (schedule_in _) g h = (g.authenticated h.0, g.flown h.1)
  Needs-Grows (end_flight_communications _ _) g h = (g.authenticated h.0, g.flown h.1)
  Needs-Grows (end_flight _ _) g h = (g.authenticated h.0, g.flown h.1)

  Served-set :
      (ps : List (Participant D)) (i : ℕ) {p : Participant D} (p' : Participant D)
      → get_elem? ps i ≡ some p
      → Grows p p'
      → (l : List (ℕ × Call D)) → All (Served ps) l
      → All (Served (set ps i p')) l
  Served-set ps i p' e g [] h = tt
  Served-set ps i {p} p' e g ((j, c) ∷ l) ((q, at_j, needs), h) =
      let found = get_elem?-set ps i j p' e in
      let rest = Served-set ps i p' e g l h in
      elim (Bool-cases (i == j)) [
        | inl same ↦
            let ij : i ≡ j = ground arith in
            let qp : q ≡ p = some-injective _ _ (sym at_j ∙ ap (get_elem? ps) (sym ij) ∙ e) in
            ((p', rw same at found, Needs-Grows c g (subst (Needs c) qp needs)), rest)
        | inr other ↦ ((q, rw other at found ∙ at_j, needs), rest)
      ]

  pub total-set :
      (ps : List (Participant D)) (i : ℕ) {p : Participant D} (p' : Participant D)
      → get_elem? ps i ≡ some p
      → total (set ps i p') + keyed p ≡ total ps + keyed p'
  total-set [] i p' e = cc
  total-set (q ∷ ps) zero p' e = ground (arith, ap keyed (some-injective _ _ e))
  total-set (q ∷ ps) (suc i) p' e = omega (arith, total-set ps i p' e)

  keyed_at-set :
      (ps : List (Participant D)) (i j : ℕ) {p : Participant D} (p' : Participant D)
      → get_elem? ps i ≡ some p
      → keyed_at j (set ps i p') + (if i == j then keyed p else 0)
        ≡ keyed_at j ps + (if i == j then keyed p' else 0)
  keyed_at-set ps i j p' e = ground (arith, get_elem?-set ps i j p' e)

module _ {D : Type 0} ⦃r : Reals D⦄ where
  pub CanFly-Grows : {p p' : Participant D} → Grows p p' → CanFly p → CanFly p'
  CanFly-Grows g h = record { area = h.area; area_lem = rw g.area h.area_lem; two = h.two }

  -- The participant at hand gets another value. Where that has a key, the chain is at its end.
  pub set-Inv :
      (i k k' n : ℕ) {p : Participant D} (p' : Participant D) (counter : ℕ) (runner : Runner D)
      (s : Command D)
      → Inv i k n s
      → get_elem? s.participants i ≡ some p
      → Grows p p'
      → IsHonest p'
      → k' + keyed p' ≡ k + keyed p
      → counter + keyed p ≡ s.key_counter + keyed p'
      → runner.running ≡ (ltb 0 n && total (set s.participants i p') == n)
      → runner.joinable ≡ runner.running
      → Simulated runner.simulator
      → is_some runner.simulator ≡ runner.running
      → Inv i k' n (record s {
        participants = set s.participants i p';
        key_counter = counter;
        runner = runner;
      })
  set-Inv i k k' n {p} p' counter runner s h e g honest chain count starts joins simulated made =
      let ps = s.participants in
      record {
        len = length-set ps i p' ∙ h.len;
        fly = All-set CanFly ps i p' h.fly (CanFly-Grows g (All-get_elem? CanFly ps i e h.fly));
        lasts = h.lasts;
        calls = Served-set ps i p' e g s.pending h.calls;
        once = λ j. ground (arith, h.once j, keyed_at-set ps i j p' e);
        live = λ goes j lt. ground (arith, h.live goes j lt, keyed_at-set ps i j p' e);
        serves = h.serves;
        counts = omega (arith, total-set ps i p' e, h.counts);
        honest = All-set IsHonest ps i p' h.honest honest;
        starts = starts;
        joins = joins;
        simulated = simulated;
        made = made;
      }

  -- Nothing but the keys matters to the counter and to the start of the simulation.
  pub grow-Inv :
      (i k n : ℕ) {p : Participant D} (p' : Participant D) (s : Command D)
      → Inv i k n s
      → get_elem? s.participants i ≡ some p
      → Grows p p'
      → p'.encryption_key ≡ p.encryption_key
      → Inv i k n (record s { participants = set s.participants i p' })
  grow-Inv i k n {p} p' s h e g same =
      let keys : keyed p' ≡ keyed p = rw same refl in
      let honest : IsHonest p' = λ key.
        let flown = All-get_elem? IsHonest s.participants i e h.honest (sym keys ∙ key) in
        (g.authenticated flown.0, g.flown flown.1) in
      let totals : total (set s.participants i p') ≡ total s.participants =
        omega (arith, total-set s.participants i p' e, keys) in
      set-Inv i k k n p' s.key_counter s.runner s h e g honest (omega (arith, keys))
        (omega (arith, keys)) (rw totals h.starts) h.joins h.simulated h.made
