-- ===== src/Mavlink/TcpRoute/Forwarding.antt =====
-- What a client gets of the messages that a route forwards.
use platform_sdk.Base.{
  ℕ, Bool, false, not, ◌&&◌, ◌||◌, ◌==◌, ◌≡◌, refl, ap, Option, none, some, List, [], ◌∷◌, ◌++◌,
  if◌then◌else◌,
}
use platform_sdk.Mavlink.TcpRoute.Sessions.{Session, emplace, emplaced, completed, pop}
use platform_sdk.Mavlink.TcpRoute.Sessions
use platform_sdk.Mavlink.TcpRoute.{TcpRoute, Event, accepted, processed, answered, step}
use platform_sdk.Mavlink.TcpRoute.Queue.{given}

module _ {B : Type 0} where
  abbrev pub lookup : ℕ → List (ℕ × Session B) → Option (Session B)
  lookup k [] = none
  lookup k ((j, s) ∷ rest) = if j == k then some s else lookup k rest

  -- Whether the loop over the sessions comes to the one at `k`: its client and those before it are
  -- not gone.
  abbrev pub reaches : ℕ → (ℕ → Bool) → List (ℕ × Session B) → Bool
  reaches k gone [] = false
  reaches k gone ((j, s) ∷ rest) = not (gone j) && (j == k || reaches k gone rest)

  -- What one event is to the session at `k`.
  abbrev pub seen : ℕ → Event B → TcpRoute B → List (Sessions.Event B)
  seen k (accepted error gone j) r = []
  seen k (processed gone b) r = if reaches k gone r.sessions then emplaced b ∷ [] else []
  seen k (answered j error) r = if j == k then completed error ∷ [] else []

  abbrev pub seen_all : ℕ → List (Event B) → TcpRoute B → List (Sessions.Event B)
  seen_all k [] r = []
  seen_all k (e ∷ es) r = seen k e r ++ seen_all k es (step e r)

  -- The writes of the session's own socket succeed.
  abbrev pub Answers : ℕ → Event B → Type 0
  Answers k (accepted error gone j) = Unit
  Answers k (processed gone b) = Unit
  Answers k (answered j error) = j ≡ k → error ≡ false

  -- The messages whose loop comes to the session at `k`.
  abbrev pub forwarded : ℕ → List (Event B) → TcpRoute B → List B
  forwarded k [] r = []
  forwarded k (accepted error gone j ∷ es) r = forwarded k es (step (accepted error gone j) r)
  forwarded k (processed gone b ∷ es) r =
      let rest = forwarded k es (step (processed gone b) r) in
      if reaches k gone r.sessions then b ∷ rest else rest
  forwarded k (answered j error ∷ es) r = forwarded k es (step (answered j error) r)

  given-append : (xs ys : List (Sessions.Event B)) → given (xs ++ ys) ≡ given xs ++ given ys
  given-append [] ys = refl
  given-append (emplaced b ∷ xs) ys = ap (λ l. b ∷ l) (given-append xs ys)
  given-append (completed error ∷ xs) ys = given-append xs ys
