-- ===== src/Examples/Tokens.antt =====
-- Tokens that are assigned.
use platform_sdk.Base.{◌≡◌, refl, some}
use platform_sdk.Core.Token.{Token, oauth, oauth_member, is, throws, id, oauth_of}
use platform_sdk.Core.Token.Assignment.{blank}

abbrev user : Token
user = record {
  type = oauth;
  member = oauth_member (record { type = 0; refresh = "r"; id = "user"; access = "a" });
}

named : id user ≡ some (is "user")
unfolding id oauth_of
named = refl

nameless : id blank ≡ some throws
unfolding id
nameless = refl
