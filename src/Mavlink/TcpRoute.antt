-- ===== src/Mavlink/TcpRoute.antt =====
-- src/airmap/mavlink/boost/tcp_route.cpp and src/airmap/mavlink/router.cpp: messages are forwarded
-- to every client that is connected.
pub mod Sessions
pub mod Queue
pub mod Stall
pub mod Forwarding
use platform_sdk.Base.{
  ℕ, Bool, true, false, ◌==◌, ◌||◌, ltb, Option, none, some, List, [], ◌∷◌, ◌++◌, map,
  if◌then◌else◌,
}
use Sessions.{Session, create, emplace, complete}

-- A session and a monitor are known by their addresses; the set of sessions has them in the order
-- of their addresses. `accepting` is a pending `async_accept`, `announced` the calls of
-- `on_new_session`, the first at the front.
pub record TcpRoute (B : Type 0) : Type 0 where
  pub monitors : List ℕ
  pub sessions : List (ℕ × Session B)
  pub accepting : Bool
  pub announced : List (ℕ × ℕ)

-- `Router::route`, for what `process` does to a route.
unfoldable pub route {ℓ} : {M : Type 0} {R : Type ℓ} → (M → R → R) → M → List R → List R
route process message routes = map (process message) routes

module _ {B : Type 0} where
  abbrev pub contains : ℕ → List (ℕ × Session B) → Bool
  contains k [] = false
  contains k ((j, t) ∷ rest) = j == k || contains k rest

  -- Before the first session with a higher address.
  unfoldable pub place : ℕ → Session B → List (ℕ × Session B) → List (ℕ × Session B)
  place k s [] = (k, s) ∷ []
  place k s ((j, t) ∷ rest) =
      let rest' = place k s rest in if ltb k j then (k, s) ∷ (j, t) ∷ rest else (j, t) ∷ rest'

  unfoldable pub insert : ℕ → Session B → List (ℕ × Session B) → List (ℕ × Session B)
  insert k s sessions = if contains k sessions then sessions else place k s sessions

  unfoldable pub start : TcpRoute B → TcpRoute B
  start r = record r { accepting = true }

  -- The handler of `async_accept`, with an error or for the new session `k`. After an error no further
  -- connection is accepted, nor where `remote_endpoint`, which is evaluated for the log, throws because
  -- the client is `gone`.
  unfoldable pub handle_accept : Bool → Bool → ℕ → TcpRoute B → TcpRoute B
  handle_accept true gone k r = record r { accepting = false }
  handle_accept false true k r = record r { accepting = false }
  handle_accept false false k r = start (record r {
    announced = r.announced ++ map (λ m. (m, k)) r.monitors;
    sessions = insert k create r.sessions;
  })

  -- The loop over the sessions. `Session::process` evaluates `remote_endpoint` for its log first, which
  -- throws for a client that is `gone`: the exception leaves the loop, and the context catches it.
  -- The handler that this posts for each session runs at once here.
  unfoldable pub process_each : (ℕ → Bool) → B → List (ℕ × Session B) → List (ℕ × Session B)
  process_each gone b [] = []
  process_each gone b ((j, s) ∷ rest) =
      let rest' = process_each gone b rest in
      if gone j then (j, s) ∷ rest else (j, emplace b s) ∷ rest'

  -- A message, in its encoded form.
  unfoldable pub process : (ℕ → Bool) → B → TcpRoute B → TcpRoute B
  process gone b r = record r { sessions = process_each gone b r.sessions }

  unfoldable pub adjust : ℕ → (Session B → Session B) → List (ℕ × Session B) → List (ℕ × Session B)
  adjust k f [] = []
  adjust k f ((j, s) ∷ rest) = if j == k then (j, f s) ∷ rest else (j, s) ∷ adjust k f rest

-- What the io_service runs for a route.
pub data Event (B : Type 0) : Type 0 where
  accepted : (error gone : Bool) → ℕ → Event B
  processed : (gone : ℕ → Bool) → B → Event B
  answered : ℕ → Bool → Event B

module _ {B : Type 0} where
  -- An accept is handled only where one is pending.
  unfoldable pub step : Event B → TcpRoute B → TcpRoute B
  step (accepted error gone k) r = if r.accepting then handle_accept error gone k r else r
  step (processed gone b) r = process gone b r
  step (answered k error) r = record r { sessions = adjust k (complete error) r.sessions }

  unfoldable pub run : List (Event B) → TcpRoute B → TcpRoute B
  run [] r = r
  run (e ∷ es) r = run es (step e r)
