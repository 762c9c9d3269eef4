-- ===== src/Monitor/Client.antt =====
-- src/airmap/monitor/grpc/client.cpp, and the loop of src/airmap/grpc/client/executor.cpp: the
-- invocations of ConnectToUpdates, their streams, and the receivers of these. An entry of an update is
-- decoded by a function that is given.
pub mod Streams
pub mod Handover
pub mod Delivery
pub mod Operations
pub mod Answers
use platform_sdk.Base.{
  ℕ, suc, ◌==◌, Bool, true, false, Option, none, some, ◌>>=◌, List, [], ◌∷◌, ◌++◌, map,
  if◌then◌else◌,
}
use platform_sdk.Monitor.FanOut
use platform_sdk.Monitor.Service.{State, ready, streaming, finished}

-- What is handed to the context, which runs it later on its own thread: the callback with an error or
-- with the stream of an invocation, and the delivery of an update to the receivers of a stream.
pub data Task (T : Type 0) : Type 0 where
  fail connected : ℕ → Task T
  deliver : ℕ → List T → Task T

-- What an invocation asks of the gRPC library, the callback with its result, and an update for a
-- receiver of a stream.
pub data Call (T : Type 0) : Type 0 where
  connect read finish : ℕ → Call T
  callback_error callback_stream : ℕ → Call T
  handle_update : ℕ → ℕ → List T → Call T

-- Invocations are known by the order of their creation, a stream by its invocation: `states` has the
-- invocations that are alive, and `streams` the receivers of each stream.
pub record Client (T : Type 0) : Type 0 where
  pub states : ℕ → Option State
  pub streams : ℕ → Option (List ℕ)
  pub next : ℕ
  pub tasks : List (Task T)

-- What happens to a client: a call of `connect_to_updates`, an operation of an invocation that is done,
-- with what the gRPC library has put into `element_` by then, the next task of the context, and a
-- receiver that comes or goes.
pub data Event (E : Type 0) : Type 0 where
  connects runs_task : Event E
  completes : ℕ → Bool → List E → Event E
  subscribes unsubscribes : ℕ → ℕ → Event E

abbrev pub set : {A : Type 0} → ℕ → A → (ℕ → A) → ℕ → A
set i x f k = if k == i then x else f k

module _ {T : Type 0} where
  unfoldable pub create : Client T
  create = record { states = λ (k : ℕ). none; streams = λ (k : ℕ). none; next = 0; tasks = [] }

  -- `start`, by way of the executor.
  unfoldable pub connect_to_updates : Client T → Client T × List (Call T)
  connect_to_updates s = (
    record s { states = set s.next (some ready) s.states; next = suc s.next },
    connect s.next ∷ [],
  )

  abbrev pub dispatch : Task T → Client T → Client T
  dispatch t s = record s { tasks = s.tasks ++ t ∷ [] }

  unfoldable pub subscribe : ℕ → ℕ → Client T → Option (Client T)
  subscribe i r s = do
    rs ← s.streams i
    some (record s { streams = set i (some (FanOut.subscribe r rs)) s.streams })

  unfoldable pub unsubscribe : ℕ → ℕ → Client T → Option (Client T)
  unsubscribe i r s = do
    rs ← s.streams i
    some (record s { streams = set i (some (FanOut.unsubscribe r rs)) s.streams })

  -- The loop over a copy of the receivers.
  unfoldable pub write_update : ℕ → List T → List ℕ → List (Call T)
  write_update i u [] = []
  write_update i u (r ∷ rs) = handle_update i r u ∷ write_update i u rs

  unfoldable pub run_task : Task T → Client T → Option (List (Call T))
  run_task (fail i) s = some (callback_error i ∷ [])
  run_task (connected i) s = some (callback_stream i ∷ [])
  run_task (deliver i u) s = do rs ← s.streams i; some (write_update i u rs)

  unfoldable pub run_next : List (Task T) → Client T → Option (Client T × List (Call T))
  run_next [] s = some (s, [])
  run_next (t ∷ ts) s = do cs ← run_task t s; some (record s { tasks = ts }, cs)

module _ {E T : Type 0} (decode : E → T) where
  -- `proceed` of the invocation `i` in its state, with its `element_`.
  unfoldable pub proceed_in : State → ℕ → Bool → List E → Client T → Client T × List (Call T)
  proceed_in ready i false element s =
      (record (dispatch (fail i) s) { states = set i (some finished) s.states }, finish i ∷ [])
  proceed_in ready i true element s = (
    record (dispatch (connected i) s) {
      states = set i (some streaming) s.states;
      streams = set i (some []) s.streams;
    },
    read i ∷ [],
  )
  proceed_in streaming i false element s =
      (record s { states = set i (some finished) s.states }, finish i ∷ [])
  proceed_in streaming i true element s = (dispatch (deliver i (map decode element)) s, read i ∷ [])
  proceed_in finished i result element s = (record s { states = set i none s.states }, [])

  -- An invocation that was deleted has no `proceed`: undefined behaviour.
  unfoldable pub proceed : ℕ → Bool → List E → Client T → Option (Client T × List (Call T))
  proceed i result element s = do state ← s.states i; some (proceed_in state i result element s)

  unfoldable pub step : Event E → Client T → Option (Client T × List (Call T))
  step connects s = some (connect_to_updates s)
  step (completes i result element) s = proceed i result element s
  step runs_task s = run_next s.tasks s
  step (subscribes i r) s = do s' ← subscribe i r s; some (s', [])
  step (unsubscribes i r) s = do s' ← unsubscribe i r s; some (s', [])

  -- The executor's loop hands each completion to its invocation; other events come in between.
  unfoldable pub run : List (Event E) → Client T → Option (Client T × List (Call T))
  run [] s = some (s, [])
  run (e ∷ es) s = do (s', cs) ← step e s; (s'', cs') ← run es s'; some (s'', cs ++ cs')
