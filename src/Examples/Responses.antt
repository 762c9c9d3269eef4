-- ===== src/Examples/Responses.antt =====
-- The class of a response.
use platform_sdk.Base.{◌≡◌, refl}
use platform_sdk.Net.Response.{classify, client_error}

not_found : classify 404 ≡ client_error
unfolding classify
not_found = refl
