-- ===== src/Examples/Logins.antt =====
-- Two renewals of a token, of which the first fails.
use platform_sdk.Base.{
  ℕ, Bool, true, false, String, ◌≡◌, refl, inl, Option, none, some, List, [], ◌∷◌, ◌>>=◌,
  if◌then◌else◌, str_eq,
}
use platform_sdk.Boost.Context.{ReturnCode}
use platform_sdk.Core.Flight.{Credentials}
use platform_sdk.Core.Flight
use platform_sdk.Core.Outcome.{value, error}
use platform_sdk.Core.Token.{OAuth, oauth_of, unknown, parse, print, oauth_member}
use platform_sdk.Codec.Json.{Library, Texts, get}
use platform_sdk.Codec.Json.Token.{
  to_text, load_from_json, encode, decode, encode_oauth, encode_oauth_type, decode_oauth,
  decode_oauth_type, decode_type,
}
use platform_sdk.Codec.Json.Token.RoundTrip.{decode-encode}
use platform_sdk.Cmds.Login.{Request, Answer, of_oauth}
use platform_sdk.Cmds.Login.Renewals.{Holds, Renewed, logins, logins-renew}

-- Documents, an object from its last member to null.
data Document : Type 0 where
  null : Document
  text : String → Document
  number : ℕ → Document
  member : String → Document → Document → Document

abbrev find : String → Document → Option Document
find key (member k v j) = let rest = find key j in if str_eq key k then some v else rest
find key _ = none

abbrev is_null : Document → Bool
is_null null = true
is_null _ = false

abbrev takes_keys : Document → Bool
takes_keys null = true
takes_keys (member k v j) = true
takes_keys _ = false

abbrev text_of : Document → Option String
text_of (text s) = some s
text_of _ = none

abbrev number_of : Document → Option ℕ
number_of (number n) = some n
number_of _ = none

instance documents : Library Document
documents = record {
  null = null;
  put = member;
  find = find;
  is_null = is_null;
  of_string = text;
  get_string = text_of;
  of_number = number;
  get_number = number_of;
  read_word = some;
  takes_keys = takes_keys;
  null_takes_keys = refl;
  put_takes_keys = λ k v j h. refl;
  find-null = λ k. refl;
  find-put = λ key k v j h. refl;
  is_null-null = refl;
  is_null-put = λ k v j h. refl;
  is_null-of_string = λ s. refl;
  get_string-of_string = λ s. refl;
  is_null-of_number = λ n. refl;
  get_number-of_number = λ n. refl;
}

instance stored : Texts Document Document
stored = record { dump = λ j. j; parse = some; parse-dump = λ j. refl }

abbrev user : Flight.OAuth
user = record { username = "u"; password = "p"; client_id = "c"; device_id = "d" }

abbrev credentials : Credentials
credentials = record { api_key = "k"; oauth = some user; anonymous = none }

abbrev first : OAuth
first = record { type = 0; refresh = "again"; id = "i"; access = "a" }

abbrev refused : Answer String
refused = record {
  password = error "no";
  anonymously = error "no";
  renewed = error "no";
  opens = true;
}

abbrev granted : Answer String
granted = record refused {
  renewed = value (record { type = 0; expires_in = 60; id = "j"; original_token = none });
}

-- The file that was written for the first token.
abbrev stored_first : Document
stored_first =
    member "oauth"
      (member "token_type" (text "bearer") (
        member "access_token" (text "a")
          (member "id_token" (text "i") (member "refresh_token" (text "again") null))))
      (member "type" (text "oauth") null)

written_first : to_text Document (of_oauth first) ≡ some stored_first
unfolding to_text encode encode_oauth encode_oauth_type oauth_of print stored documents
written_first = refl

read_first : load_from_json Document 7 unknown stored_first ≡ some (of_oauth first)
unfolding load_from_json decode decode_oauth decode_oauth_type decode_type get parse stored
    documents
read_first = refl

logins-renew_example :
    (file : Option Document) × (ends : List (Option Request × Option ReturnCode)) × (logins Document
        7 unknown credentials
        (refused ∷ granted ∷ [])
        (some stored_first)
      ≡ some (file, ends))
    × Renewed user "again" (refused ∷ granted ∷ []) ends
    × Holds Document 7 unknown "again" file
unfolding documents
logins-renew_example =
    logins-renew Document 7 unknown credentials user "again" (refused ∷ granted ∷ [])
      (some stored_first) refl refl (λ t. refl)
      (of_oauth first, read_first, inl (first, refl, refl))

decode-encode_example :
    (encode {J = Document} (of_oauth first) >>= λ j. decode 7 unknown j) ≡ some (of_oauth first)
unfolding documents
decode-encode_example = decode-encode Document 7 unknown (oauth_member first) (λ t. refl)
