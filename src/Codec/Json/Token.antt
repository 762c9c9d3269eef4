-- ===== src/Codec/Json/Token.antt =====
-- src/airmap/codec/json/token.cpp: a token as a document.
pub mod RoundTrip
use platform_sdk.Base.{
  ℕ, ◌==◌, ◌||◌, Bool, String, Option, none, some, ◌>>=◌, if◌then◌else◌, str_eq,
}
use platform_sdk.Core.Token.{
  TokenType, unknown, anonymous, oauth, refreshed, Anonymous, OAuth, Refreshed, Token, nothing,
  anonymous_member, oauth_member, refreshed_member, anonymous_of, oauth_of, refreshed_of, print,
  parse,
}
use platform_sdk.Codec.Json.{Library, Texts, get}

-- `Type::bearer`, the only name of a type.
abbrev pub bearer : ℕ
bearer = 0

module _ {J : Type 0} ⦃lib : Library J⦄ where
  open lib use {null, put, find, of_string, get_string, of_number, get_number, read_word}

  unfoldable pub encode_oauth_type : ℕ → J
  encode_oauth_type t = if t == bearer then of_string "bearer" else null

  unfoldable pub encode_anonymous : Anonymous → J
  encode_anonymous t = put "id_token" (of_string t.id) null

  unfoldable pub encode_oauth : OAuth → J
  encode_oauth t = put "token_type" (encode_oauth_type t.type) (
      put "access_token" (of_string t.access)
        (put "id_token" (of_string t.id) (put "refresh_token" (of_string t.refresh) null)))

  unfoldable pub encode_refreshed : Refreshed → J
  encode_refreshed t =
      let j = put "id_token" (of_string t.id) (
        put "expires_in" (of_number t.expires_in)
          (put "token_type" (encode_oauth_type t.type) null)) in
      elim t.original_token [ none ↦ j | some x ↦ put "original_token" (encode_oauth x) j ]

  -- A member that is not alive is not to be read.
  unfoldable pub encode : Token → Option J
  encode t =
      let j = put "type" (of_string (print t.type)) null in
      elim t.type [
        | anonymous ↦ do x ← anonymous_of t.member; some (put "anonymous" (encode_anonymous x) j)
        | oauth ↦ do x ← oauth_of t.member; some (put "oauth" (encode_oauth x) j)
        | refreshed ↦ do x ← refreshed_of t.member; some (put "refreshed" (encode_refreshed x) j)
        | unknown ↦ some j
      ]

  -- An object that is read starts with its default values; what is in a type by then is `rest`.
  module _ (rest : ℕ) (rest_type : TokenType) where
    unfoldable pub decode_oauth_type : ℕ → J → Option ℕ
    decode_oauth_type old j = do
      s ← get_string j
      some (if str_eq s "bearer" || str_eq s "Bearer" then bearer else old)

    unfoldable pub decode_anonymous : J → Option Anonymous
    decode_anonymous j = do id ← get get_string "id_token" j ""; some (record { id = id })

    unfoldable pub decode_oauth : J → Option OAuth
    decode_oauth j = do
      refresh ← get get_string "refresh_token" j ""
      id ← get get_string "id_token" j ""
      access ← get get_string "access_token" j ""
      type ← get (decode_oauth_type rest) "token_type" j rest
      some (record { type = type; refresh = refresh; id = id; access = access })

    -- `decode` of src/airmap/codec/json/optional.h; null does not come to it here.
    unfoldable pub decode_optional : {A : Type 0} → (J → Option A) → J → Option (Option A)
    decode_optional decode j = if lib.is_null j then some none else (do x ← decode j; some (some x))

    unfoldable pub decode_refreshed : (expires : ℕ) → J → Option Refreshed
    decode_refreshed expires j = do
      type ← get (decode_oauth_type rest) "token_type" j rest
      expires_in ← get get_number "expires_in" j expires
      id ← get get_string "id_token" j ""
      original ← get (decode_optional decode_oauth) "original_token" j none
      some (record { type = type; expires_in = expires_in; id = id; original_token = original })

    unfoldable pub decode_type : J → Option TokenType
    decode_type j = do s ← get_string j; word ← read_word s; some (parse word rest_type)

    unfoldable pub decode : J → Option Token
    decode j = do
      name ← find "type" j
      type ← decode_type name
      elim type [
        | anonymous ↦ do
          member ← find "anonymous" j
          x ← decode_anonymous member
          some (record { type = anonymous; member = anonymous_member x })
        | oauth ↦ do
          member ← find "oauth" j
          x ← decode_oauth member
          some (record { type = oauth; member = oauth_member x })
        | refreshed ↦ do
          member ← find "refreshed" j
          x ← decode_refreshed rest member
          some (record { type = refreshed; member = refreshed_member x })
        | unknown ↦ some (record { type = unknown; member = nothing })
      ]

module _ (J : Type 0) {F : Type 0} ⦃lib : Library J⦄ ⦃texts : Texts J F⦄ where
  -- What `login` writes to the file.
  unfoldable pub to_text : Token → Option F
  to_text t = do j ← encode {J = J} t; some (texts.dump j)

  -- `Token::load_from_json` of src/airmap/token.cpp.
  unfoldable pub load_from_json : (rest : ℕ) (rest_type : TokenType) → F → Option Token
  load_from_json rest rest_type text = do j ← texts.parse text; decode rest rest_type j
