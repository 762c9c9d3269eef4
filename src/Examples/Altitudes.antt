-- ===== src/Examples/Altitudes.antt =====
-- The highest altitude of a mission.
use platform_sdk.Base.{ℕ, ltb, ◌≡◌, refl, true, some, [], ◌∷◌, All, arith}
use platform_sdk.Core.Geometry.{Coordinate}
use platform_sdk.Monitor.Submitter.Plan.{max_altitude}
use platform_sdk.Monitor.Submitter.Plan.Highest.{IsStrictWeak, Occurs, not_above, max_altitude_lem}
use platform_sdk.Examples.Fixtures.{whole_floating, corner}

ltb-IsStrictWeak : IsStrictWeak ltb
ltb-IsStrictWeak = record {
  irreflexive = λ a. ground arith;
  transitive = λ a b c p q. ground arith;
  negative = λ a b c p q. ground arith;
}

max_altitude_lem_example :
    (h : ℕ) × (top : Coordinate ℕ) × (max_altitude
        (corner 47 8 100 ∷ corner 48 8 120 ∷ corner 48 9 90 ∷ [])
      ≡ some h)
    × (top.altitude ≡ some h)
    × Occurs top (corner 47 8 100 ∷ corner 48 8 120 ∷ corner 48 9 90 ∷ [])
    × All (λ x. not_above h x ≡ true) (corner 47 8 100 ∷ corner 48 8 120 ∷ corner 48 9 90 ∷ [])
max_altitude_lem_example =
    max_altitude_lem ltb-IsStrictWeak (corner 47 8 100) (corner 48 8 120 ∷ corner 48 9 90 ∷ []) refl
