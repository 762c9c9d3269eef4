-- ===== src/Examples/Streams.antt =====
-- A client of the monitor with two receivers.
use platform_sdk.Base.{
  ℕ, suc, ◌+◌, ◌≤◌, ◌≡◌, refl, true, false, Option, none, some, is_some, List, [], ◌∷◌, ◌++◌,
}
use platform_sdk.Monitor.FanOut
use platform_sdk.Monitor.Client.{
  Client, Call, Event, connects, runs_task, completes, subscribes, create, step, run,
  connect_to_updates, proceed, proceed_in, run_next, run_task, subscribe, unsubscribe, write_update,
}
use platform_sdk.Monitor.Client.Handover.{told, queued}
use platform_sdk.Monitor.Client.Delivery.{run-delivers}
use platform_sdk.Monitor.Client.Operations.{asked, answers, waiting}
use platform_sdk.Monitor.Client.Answers.{run-answers}

abbrev state : Option (Client ℕ × List (Call ℕ)) → Client ℕ
state none = create
state (some (s, cs)) = s

abbrev calls_of : Option (Client ℕ × List (Call ℕ)) → List (Call ℕ)
calls_of none = []
calls_of (some (s, cs)) = cs

-- The first invocation connects and has a receiver.
abbrev before : List (Event ℕ)
before =
    connects ∷ completes 0 true [] ∷ runs_task ∷ subscribes 0 7 ∷ completes 0 true (1 ∷ 2 ∷ []) ∷ []

-- Another receiver comes, two updates arrive, and the connection fails.
abbrev after : List (Event ℕ)
after =
    completes 0 true (3 ∷ [])
    ∷ runs_task
    ∷ subscribes 0 4
    ∷ runs_task
    ∷ completes 0 true (5 ∷ [])
    ∷ completes 0 false []
    ∷ []

abbrev half : Client ℕ
half = state (run suc before create)

run-delivers_example :
    told 0 7 (calls_of (run suc after half)) ++ queued 0 (state (run suc after half)).tasks
    ≡ (2 ∷ 3 ∷ []) ∷ (4 ∷ []) ∷ (6 ∷ []) ∷ []
unfolding create run step connect_to_updates proceed proceed_in run_next run_task subscribe
    unsubscribe write_update FanOut.subscribe FanOut.unsubscribe
run-delivers_example =
    run-delivers suc 0 7 before after {s = half} {s' = state (run suc after half)}
      {cs = calls_of (run suc before create)} {cs' = calls_of (run suc after half)} refl refl refl
      refl

run-answers_example :
    (is_some (step suc (completes 0 true (1 ∷ [])) half) ≡ true)
    × (asked 0 (calls_of (run suc before create)) ≤ 3)
    × (answers 0 (calls_of (run suc before create)) + waiting 0 half.tasks ≡ 1)
    × (is_some (step suc runs_task half) ≡ true)
unfolding create run step connect_to_updates proceed proceed_in run_next run_task subscribe
    unsubscribe write_update FanOut.subscribe FanOut.unsubscribe
run-answers_example =
    run-answers suc before 0 true (1 ∷ []) {s = half} {cs = calls_of (run suc before create)} refl
