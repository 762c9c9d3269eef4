-- ===== src/Monitor/FanOut.antt =====
-- src/airmap/monitor/fan_out_traffic_monitor.cpp: the subscribers that each update is handed to.
use platform_sdk.Base.{
  ℕ, ◌==◌, ltb, ◌≡◌, refl, Bool, false, ◌||◌, ◌&&◌, not, List, [], ◌∷◌, map, if◌then◌else◌, arith,
}

-- `subscribers_` is a set ordered by address.
unfoldable pub subscribe : ℕ → List ℕ → List ℕ
subscribe a [] = a ∷ []
subscribe a (b ∷ bs) =
    let rest = subscribe a bs in if a == b then b ∷ bs else if ltb a b then a ∷ b ∷ bs else b ∷ rest

unfoldable pub unsubscribe : ℕ → List ℕ → List ℕ
unsubscribe a [] = []
unsubscribe a (b ∷ bs) = let rest = unsubscribe a bs in if a == b then rest else b ∷ rest

-- The calls of `handle_update`: the loop runs over a copy of the set.
unfoldable pub handle_update : {U : Type 0} → U → List ℕ → List (ℕ × U)
handle_update update subscribers = map (λ s. (s, update)) subscribers

abbrev pub member : ℕ → List ℕ → Bool
member k [] = false
member k (b ∷ bs) = k == b || member k bs

pub member-subscribe : (k a : ℕ) (bs : List ℕ) → member k (subscribe a bs) ≡ (k == a || member k bs)
unfolding subscribe
member-subscribe k a [] = refl
member-subscribe k a (b ∷ bs) = ground (arith, member-subscribe k a bs)

pub member-unsubscribe :
    (k a : ℕ) (bs : List ℕ) → member k (unsubscribe a bs) ≡ (not (k == a) && member k bs)
unfolding unsubscribe
member-unsubscribe k a [] = ground arith
member-unsubscribe k a (b ∷ bs) = ground (arith, member-unsubscribe k a bs)
