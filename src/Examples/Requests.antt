-- ===== src/Examples/Requests.antt =====
-- A request whose handshake fails.
use platform_sdk.Base.{ℕ, ◌≡◌, true, none, some, List, [], ◌∷◌, arith}
use platform_sdk.Core.Outcome.{error}
use platform_sdk.Net.Request.{Message, Request, Completion, wrap_error_code, begin, run}
use platform_sdk.Net.Request.Answers.{run-begin}

abbrev page : Message
page = record { version = 11; result_int = 200; body = "{}" }

abbrev ended : List Completion
ended = none ∷ none ∷ some "handshake failed" ∷ none ∷ none ∷ []

abbrev failed : Request ℕ
failed = record {
  encrypting = true;
  pending = none;
  results = error (wrap_error_code "handshake failed") ∷ [];
}

run-begin_example : run page ended (begin true) ≡ failed
run-begin_example = run-begin page true ended (omega arith)
