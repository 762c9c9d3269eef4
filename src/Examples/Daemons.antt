-- ===== src/Examples/Daemons.antt =====
-- A daemon that hears two vehicles.
use platform_sdk.Base.{ℕ, none, List, [], ◌∷◌}
use platform_sdk.Core.Outcome.{value}
use platform_sdk.Mavlink.Message.{heartbeat, global_position_int}
use platform_sdk.Monitor.Submitter.Types.{authorization_reply}
use platform_sdk.Monitor.Daemon
use platform_sdk.Monitor.Daemon.{Input, message, replied, finalize}
use platform_sdk.Monitor.Daemon.Solo.{solo_run}
use platform_sdk.Monitor.Daemon.Shown.{Refines}
use platform_sdk.Monitor.Daemon.Refinement.{finalize-run-Refines}
use platform_sdk.Examples.Fixtures.{Message, messages, whole_floating, env, credentials}

abbrev beat : ℕ → Input Message ℕ
beat k = message env (record { sender = k; id = heartbeat; payload = 0 })

abbrev fix : ℕ → Input Message ℕ
fix k = message env (record { sender = k; id = global_position_int; payload = 0 })

abbrev inputs : List (Input Message ℕ)
inputs = beat 7 ∷ fix 9 ∷ fix 7 ∷ replied env 7 (authorization_reply (value "token")) ∷ beat 9 ∷ []

finalize-run-Refines_example :
    Refines
      (Daemon.run credentials "drone" inputs finalize)
      (λ k. solo_run credentials "drone" k inputs none)
finalize-run-Refines_example = finalize-run-Refines credentials "drone" inputs
