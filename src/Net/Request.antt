-- ===== src/Net/Request.antt =====
-- src/airmap/net/http/boost/request.cpp and the start of a request in boost/requester.cpp: the
-- asynchronous operations that a request goes through.
pub mod Answers
use platform_sdk.Base.{
  ℕ, if◌then◌else◌, String, Bool, true, false, Option, none, some, List, [], ◌∷◌, ◌++◌,
}
use platform_sdk.Core.Error.{Error, empty}
use platform_sdk.Core.Outcome.{Outcome, value, error}

-- What Boost.Beast makes of the bytes of a response.
pub record Message : Type 0 where
  pub version : ℕ
  pub result_int : ℕ
  pub body : String

-- `Response`; this code leaves its headers empty.
pub record Response : Type 0 where
  pub version : ℕ
  pub status : ℕ
  pub headers : List (String × String)
  pub body : String

-- The operation that was started and has not ended.
pub data Operation : Type 0 where
  resolve connect handshake write read : Operation

-- A request, its class and the calls of `cb_` so far. The classes differ in what follows the
-- connection.
pub record Request (D : Type 0) : Type 0 where
  pub encrypting : Bool
  pub pending : Option Operation
  pub results : List (Outcome Response (Error D))

-- What an operation ends with: the message of an error code, or success.
abbrev pub Completion : Type 0
Completion = Option String

unfoldable pub response : Message → Response
response m = record { version = m.version; status = m.result_int; headers = []; body = m.body }

module _ {D : Type 0} where
  unfoldable pub wrap_error_code : String → Error D
  wrap_error_code ec = record { message = ec; description = none; values = empty }

  -- The methods of the requester: `async_resolve`.
  unfoldable pub begin : Bool → Request D
  begin encrypting = record { encrypting = encrypting; pending = some resolve; results = [] }

  unfoldable pub call : Outcome Response (Error D) → Request D → Request D
  call result r = record r { results = r.results ++ result ∷ [] }

  unfoldable pub start : Operation → Request D → Request D
  start op r = record r { pending = some op }

  -- A handler that only goes on to the next operation.
  unfoldable pub continue : Operation → Completion → Request D → Request D
  continue op (some ec) r = call (error (wrap_error_code ec)) r
  continue op none r = start op r

  unfoldable pub handle_resolve : Completion → Request D → Request D
  handle_resolve ec r = continue connect ec r

  unfoldable pub handle_connect : Completion → Request D → Request D
  handle_connect ec r = if r.encrypting then continue handshake ec r else continue write ec r

  unfoldable pub handle_ssl_handshake : Completion → Request D → Request D
  handle_ssl_handshake ec r = continue write ec r

  unfoldable pub handle_write : Completion → Request D → Request D
  handle_write ec r = continue read ec r

  unfoldable pub handle_read : Message → Completion → Request D → Request D
  handle_read m (some ec) r = call (error (wrap_error_code ec)) r
  handle_read m none r = call (value (response m)) r

  unfoldable pub handle : Message → Operation → Completion → Request D → Request D
  handle m resolve ec r = handle_resolve ec r
  handle m connect ec r = handle_connect ec r
  handle m handshake ec r = handle_ssl_handshake ec r
  handle m write ec r = handle_write ec r
  handle m read ec r = handle_read m ec r

  -- An operation ends once; with none pending nothing ends. `m` is what a read would have read.
  unfoldable pub complete : Message → Completion → Request D → Request D
  complete m ec r = elim r.pending [
    | none ↦ r
    | some op ↦ handle m op ec (record r { pending = none })
  ]

  unfoldable pub run : Message → List Completion → Request D → Request D
  run m [] r = r
  run m (ec ∷ ecs) r = run m ecs (complete m ec r)
