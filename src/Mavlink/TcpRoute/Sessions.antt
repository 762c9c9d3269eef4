-- ===== src/Mavlink/TcpRoute/Sessions.antt =====
-- `TcpRoute::Session` of src/airmap/mavlink/boost/tcp_route.cpp: the messages that wait to be
-- written to one client. A buffer is a message in its encoded form.
use platform_sdk.Base.{Bool, ◌==◌, Option, none, some, List, [], ◌∷◌, ◌++◌, length, if◌then◌else◌}

-- `buffers_`, the front first. The socket's part: the write that it was given and has not answered
-- for, and in `writes` all that it was given, the first at the front.
pub record Session (B : Type 0) : Type 0 where
  pub buffers : List B
  pub outstanding : Option B
  pub writes : List B

unfoldable pub create : {B : Type 0} → Session B
create = record { buffers = []; outstanding = none; writes = [] }

module _ {B : Type 0} where
  -- The private `process`: `async_write` of the front. Without a front it is undefined behaviour,
  -- and is never called so.
  unfoldable pub write_front : Session B → Session B
  write_front s = elim s.buffers [
    | [] ↦ s
    | b ∷ rest ↦ record s { outstanding = some b; writes = s.writes ++ b ∷ [] }
  ]

  -- The handler that `process` posts.
  unfoldable pub emplace : B → Session B → Session B
  emplace b s =
      let s' : Session B = record s { buffers = s.buffers ++ b ∷ [] } in
      if length s'.buffers == 1 then write_front s' else s'

  unfoldable pub pop : List B → List B
  pop [] = []
  pop (b ∷ rest) = rest

  -- The handler of `async_write`, with or without an error. It runs only for a write that is
  -- outstanding.
  unfoldable pub complete : Bool → Session B → Session B
  complete error s = elim s.outstanding [
    | none ↦ s
    | some b ↦
        let s' : Session B = record s { buffers = pop s.buffers; outstanding = none } in
        if error then s' else write_front s'
  ]

-- What the io_service runs for a session.
pub data Event (B : Type 0) : Type 0 where
  emplaced : B → Event B
  completed : Bool → Event B

module _ {B : Type 0} where
  unfoldable pub step : Event B → Session B → Session B
  step (emplaced b) s = emplace b s
  step (completed error) s = complete error s

  unfoldable pub run : List (Event B) → Session B → Session B
  run [] s = s
  run (e ∷ es) s = run es (step e s)
