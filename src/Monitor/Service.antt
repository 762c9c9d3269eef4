-- ===== src/Monitor/Service.antt =====
-- src/airmap/monitor/grpc/service.cpp: the invocations of ConnectToUpdates and the traffic monitor
-- that they subscribe to.
pub mod Streaming
use platform_sdk.Base.{
  ℕ, suc, ◌==◌, Bool, true, false, Option, none, some, ◌>>=◌, List, [], ◌∷◌, if◌then◌else◌,
}
use platform_sdk.Monitor.FanOut
use platform_sdk.Monitor.FanOut.{subscribe, unsubscribe}

pub data State : Type 0 where
  ready streaming finished : State

-- What an invocation asks of the gRPC library: to wait for the next call, to finish, to write.
pub data Call (U : Type 0) : Type 0 where
  request_connect finish : ℕ → Call U
  write : ℕ → U → Call U

-- Invocations are known by the order of their creation: `states` has those that are alive, and
-- `next` is the number of the next one. The subscriber of an invocation has its number.
pub record Service (U : Type 0) : Type 0 where
  pub states : ℕ → Option State
  pub next : ℕ
  pub subscribers : List ℕ
  pub calls : List (Call U)

abbrev pub set : ℕ → Option State → (ℕ → Option State) → ℕ → Option State
set i x states k = if k == i then x else states k

module _ {U : Type 0} where
  unfoldable pub start_listening : Service U → Service U
  start_listening s = record s {
    states = set s.next (some ready) s.states;
    next = suc s.next;
    calls = request_connect s.next ∷ s.calls;
  }

  -- `start`, on a service that has no invocation.
  unfoldable pub start : Service U
  start =
      start_listening (record { states = λ (k : ℕ). none; next = 0; subscribers = []; calls = [] })

  -- The responder is finished, with the status that the call was cancelled.
  unfoldable pub cancel : ℕ → Service U → Service U
  cancel i s = record s { states = set i (some finished) s.states; calls = finish i ∷ s.calls }

  -- `proceed` of the invocation `i` in its state.
  unfoldable pub proceed_in : State → ℕ → Bool → Service U → Service U
  proceed_in ready i result s =
      let s' = start_listening s in
      if result
      then record s' {
        states = set i (some streaming) s'.states;
        subscribers = subscribe i s'.subscribers;
      }
      else cancel i s'
  proceed_in streaming i result s =
      if result then s else cancel i (record s { subscribers = unsubscribe i s.subscribers })
  proceed_in finished i result s = record s { states = set i none s.states }

  -- An invocation that was deleted has no `proceed`: undefined behaviour.
  unfoldable pub proceed : ℕ → Bool → Service U → Option (Service U)
  proceed i result s = do state ← s.states i; some (proceed_in state i result s)

  unfoldable pub write_all : U → List ℕ → List (Call U) → List (Call U)
  write_all u [] calls = calls
  write_all u (i ∷ is) calls = write_all u is (write i u ∷ calls)

  -- An update of the traffic monitor: each subscriber writes it.
  unfoldable pub update : U → Service U → Service U
  update u s = record s { calls = write_all u s.subscribers s.calls }
