-- ===== src/Examples/Routes.antt =====
-- Clients of a route.
use platform_sdk.Base.{ℕ, ◌==◌, ◌≡◌, refl, true, false, some, List, [], ◌∷◌, arith}
use platform_sdk.Mavlink.TcpRoute.{TcpRoute, accepted, processed, answered}
use platform_sdk.Mavlink.TcpRoute
use platform_sdk.Mavlink.TcpRoute.Sessions.{Session, create, emplaced, completed}
use platform_sdk.Mavlink.TcpRoute.Sessions
use platform_sdk.Mavlink.TcpRoute.Queue.{successes, run-writes}
use platform_sdk.Mavlink.TcpRoute.Stall.{complete-run}

abbrev traffic : List (Sessions.Event ℕ)
traffic = emplaced 1 ∷ emplaced 2 ∷ completed false ∷ emplaced 3 ∷ []

run-writes_example :
    (Sessions.run (successes 2) (Sessions.run traffic create)).writes ≡ 1 ∷ 2 ∷ 3 ∷ []
unfolding Sessions.run Sessions.step Sessions.emplace Sessions.complete create Sessions.write_front
    Sessions.pop
run-writes_example = (run-writes 2 traffic (tt, (tt, (refl, (tt, tt)))) (omega arith)).0

abbrev busy : Session ℕ
busy = record { buffers = 1 ∷ 2 ∷ []; outstanding = some 1; writes = 1 ∷ [] }

complete-run_example :
    (Sessions.run
      (emplaced 3 ∷ completed false ∷ emplaced 4 ∷ [])
      (Sessions.complete true busy)).writes
    ≡ 1 ∷ []
complete-run_example =
    (complete-run 1 2 [] (emplaced 3 ∷ completed false ∷ emplaced 4 ∷ []) busy refl refl).0

abbrev listening : TcpRoute ℕ
listening = record { monitors = 5 ∷ []; sessions = []; accepting = true; announced = [] }

abbrev day : List (TcpRoute.Event ℕ)
day =
    processed (λ j. false) 1
    ∷ accepted false false 8
    ∷ processed (λ j. j == 8) 2
    ∷ answered 8 true
    ∷ answered 7 false
    ∷ processed (λ j. false) 3
    ∷ []
