-- ===== src/Examples/Calls.antt =====
-- Calls of requesters.
use platform_sdk.Base.{◌≡◌, refl, List, [], ◌∷◌}
use platform_sdk.Net.Requesters.{get, Call, put, with_api_key, routed, Event, begun, finished, run}
use platform_sdk.Net.Requesters.Outstanding.{Follows, run-Follows}

-- The second call is answered first.
abbrev crossed : List Event
crossed = begun "a" 1 ∷ begun "b" 2 ∷ finished "b" ∷ begun "c" 3 ∷ []

run-Follows_example : Follows ("a" ∷ "c" ∷ []) (run crossed [])
run-Follows_example = run-Follows crossed [] (refl, (refl, (refl, (refl, tt))))

abbrev status : Call
status = record { method = get; path = "/point"; query = []; headers = []; body = "" }

layered :
    routed "/status/v2" (with_api_key "key" status)
    ≡ record status { path = "/status/v2/point"; headers = ("X-API-Key", "key") ∷ [] }
unfolding routed with_api_key put
layered = refl
