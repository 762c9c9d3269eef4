-- ===== src/Examples/Services.antt =====
-- The service for traffic updates at work.
use platform_sdk.Base.{ℕ, refl, true, false, Option, none, some, List, [], ◌∷◌}
use platform_sdk.Monitor.FanOut.{subscribe, unsubscribe}
use platform_sdk.Monitor.Service.{
  Service, start, start_listening, cancel, proceed, proceed_in, update, write_all,
}
use platform_sdk.Monitor.Service.Streaming.{
  IsServing, Event, proceeds, updates, step, run, run-IsServing,
}

abbrev or_start : Option (Service ℕ) → Service ℕ
or_start none = start
or_start (some s) = s

abbrev calls : List (Event ℕ)
calls = proceeds 0 true ∷ updates 5 ∷ proceeds 1 true ∷ proceeds 0 false ∷ updates 6 ∷ []

run-IsServing_example : IsServing (or_start (run calls start))
unfolding run step start start_listening cancel proceed proceed_in update write_all subscribe
    unsubscribe
run-IsServing_example = run-IsServing calls refl
