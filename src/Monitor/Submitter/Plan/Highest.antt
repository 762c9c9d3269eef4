-- ===== src/Monitor/Submitter/Plan/Highest.antt =====
-- The altitude up to which a flight plan is made for a mission.
use platform_sdk.Base.{
  ◌≡◌, refl, ap, ◌∙◌, ◌⊎◌, inl, inr, Bool, true, false, Option, none, some, ◌>>=◌, is_some, List,
  [], ◌∷◌, if◌then◌else◌, arith, Bool-cases, Option-cases, All,
}
use platform_sdk.Core.Floating.{Floating}
use platform_sdk.Core.Geometry.{Coordinate}
use platform_sdk.Core.Geometry.Reflexive.{every}
use platform_sdk.Monitor.Submitter.Plan.{max_element, max_altitude}

-- What `std::max_element` asks of the comparison.
pub record IsStrictWeak {D : Type 0} (lt : D → D → Bool) : Type 0 where
  pub irreflexive : (a : D) → lt a a ≡ false
  pub transitive : (a b c : D) → lt a b ≡ true → lt b c ≡ true → lt a c ≡ true
  pub negative : (a b c : D) → lt a b ≡ false → lt b c ≡ false → lt a c ≡ false

abbrev pub Occurs : {A : Type 0} → A → List A → Type 0
Occurs x [] = ⊥
Occurs x (y ∷ ys) = (x ≡ y) ⊎ Occurs x ys

module _ {D : Type 0} ⦃fl : Floating D⦄ where
  -- The coordinate has an altitude, and `h` is not below it.
  abbrev pub not_above : D → Coordinate D → Bool
  not_above h c = elim c.altitude [
    | none ↦ false
    | some a ↦ elim (fl.lt h a) [ true ↦ false | false ↦ true ]
  ]

  -- The highest of some coordinates, and its altitude.
  pub record Highest (best : Coordinate D) (a : D) (cs : List (Coordinate D)) : Type 0 where
    pub top : Coordinate D
    pub height : D
    pub found : max_element best cs ≡ some top
    pub altitude : top.altitude ≡ some height
    pub above_best : fl.lt height a ≡ false
    pub above : All (λ c. not_above height c ≡ true) cs
    pub there : Occurs top (best ∷ cs)

  max_element_cons :
      (best c : Coordinate D) (cs : List (Coordinate D)) {a b : D}
      → best.altitude ≡ some a
      → c.altitude ≡ some b
      → max_element best (c ∷ cs) ≡ max_element (if fl.lt a b then c else best) cs
  unfolding max_element
  max_element_cons best c cs {a} e q =
      ap
        (λ (o : Option D).
          o >>= λ x. c.altitude >>= λ y. max_element (if fl.lt x y then c else best) cs)
        e
      ∙ ap (λ (o : Option D). o >>= λ y. max_element (if fl.lt a y then c else best) cs) q

  max_element-Highest :
      (order : IsStrictWeak fl.lt) (best : Coordinate D) (a : D) (cs : List (Coordinate D))
      → best.altitude ≡ some a
      → every (λ c. is_some c.altitude) cs ≡ true
      → Highest best a cs
  unfolding max_element
  max_element-Highest order best a [] e h = record {
    top = best;
    height = a;
    found = refl;
    altitude = e;
    above_best = order.irreflexive a;
    above = tt;
    there = inl refl;
  }
  max_element-Highest order best a (c ∷ cs) e h = elim (Option-cases c.altitude) [
    | inl q ↦ absurd (ground arith)
    | inr (b, q) ↦ elim (Bool-cases (fl.lt a b)) [
      | inl l ↦
          let r = max_element-Highest order c b cs q (ground arith) in
          record {
            top = r.top;
            height = r.height;
            found =
                max_element_cons best c cs e q
                ∙ ap (λ x. max_element (if x then c else best) cs) l
                ∙ r.found;
            altitude = r.altitude;
            above_best = ground (arith, order.transitive r.height a b, r.above_best);
            above = (ground (arith, r.above_best), r.above);
            there = inr r.there;
          }
      | inr l ↦
          let r = max_element-Highest order best a cs e (ground arith) in
          record {
            top = r.top;
            height = r.height;
            found =
                max_element_cons best c cs e q
                ∙ ap (λ x. max_element (if x then c else best) cs) l
                ∙ r.found;
            altitude = r.altitude;
            above_best = r.above_best;
            above = (ground (arith, order.negative r.height a b, r.above_best), r.above);
            there = elim r.there [ inl s ↦ inl s | inr s ↦ inr (inr s) ];
          }
    ]
  ]

  -- Where the comparison of numbers is a strict weak order, a nonempty list of coordinates that all
  -- have an altitude has a highest altitude: it is found, it is the altitude of one of them, and
  -- none of them is above it.
  pub max_altitude_lem :
      (order : IsStrictWeak fl.lt) (c : Coordinate D) (cs : List (Coordinate D))
      → every (λ x. is_some x.altitude) (c ∷ cs) ≡ true
      → (h : D) × (top : Coordinate D) × (max_altitude (c ∷ cs) ≡ some h)
        × (top.altitude ≡ some h)
        × Occurs top (c ∷ cs)
        × All (λ x. not_above h x ≡ true) (c ∷ cs)
  unfolding max_altitude
  max_altitude_lem order c cs h = elim (Option-cases c.altitude) [
    | inl q ↦ absurd (ground arith)
    | inr (a, q) ↦
        let r = max_element-Highest order c a cs q (ground arith) in
        (
          r.height,
          r.top,
          ap (λ (o : Option (Coordinate D)). o >>= λ x. x.altitude) r.found ∙ r.altitude,
          r.altitude,
          r.there,
          (ground (arith, r.above_best), r.above),
        )
  ]
