-- ===== src/Net/Requesters.antt =====
-- src/airmap/net/http/requester.cpp and requester_with_api_key.cpp in the same folder: the
-- requesters that change a call, or note its time, and pass it on.
pub mod Outstanding
use platform_sdk.Base.{
  ℕ, String, Bool, ◌+◌, Option, none, some, ◌>>=◌, List, [], ◌∷◌, str_eq, str_append, if◌then◌else◌,
}

pub data Method : Type 0 where
  delete_ get patch post : Method

-- A call of a requester. `query` is that of `delete_` and `get`, `body` that of `patch` and `post`.
-- A map has each key once.
pub record Call : Type 0 where
  pub method : Method
  pub path : String
  pub query : List (String × String)
  pub headers : List (String × String)
  pub body : String

-- `map[key] = value`.
unfoldable pub put {ℓ} : {A : Type ℓ} → String → A → List (String × A) → List (String × A)
put k v [] = (k, v) ∷ []
put k v ((j, w) ∷ rest) = if str_eq j k then (j, v) ∷ rest else (j, w) ∷ put k v rest

unfoldable pub find {ℓ} : {A : Type ℓ} → String → List (String × A) → Option A
find k [] = none
find k ((j, w) ∷ rest) = if str_eq j k then some w else find k rest

unfoldable pub erase {ℓ} : {A : Type ℓ} → String → List (String × A) → List (String × A)
erase k [] = []
erase k ((j, w) ∷ rest) = if str_eq j k then rest else (j, w) ∷ erase k rest

-- The four methods of `RequesterWithApiKey`.
unfoldable pub with_api_key : String → Call → Call
with_api_key api_key c = record c { headers = put "X-API-Key" api_key c.headers }

-- The four methods of `RoutingRequester`.
unfoldable pub routed : String → Call → Call
routed route c = record c { path = str_append route c.path }

-- `LoggingRequester` notes when each call was made, under a UUID of its own.
unfoldable pub begin : String → ℕ → List (String × ℕ) → List (String × ℕ)
begin uuid now timestamps = put uuid now timestamps

-- The callback: the iterator of `find` is read and erased, so it must not be the end.
unfoldable pub finish : String → List (String × ℕ) → Option (List (String × ℕ))
finish uuid timestamps = do started ← find uuid timestamps; some (erase uuid timestamps)

pub data Event : Type 0 where
  begun : String → ℕ → Event
  finished : String → Event

unfoldable pub run : List Event → List (String × ℕ) → Option (List (String × ℕ))
run [] timestamps = some timestamps
run (begun uuid now ∷ es) timestamps = run es (begin uuid now timestamps)
run (finished uuid ∷ es) timestamps = do timestamps' ← finish uuid timestamps; run es timestamps'
