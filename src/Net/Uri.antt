-- ===== src/Net/Uri.antt =====
-- src/airmap/net/http/boost/requester.cpp: the encoding of a query. A character is the number of
-- its byte.
pub mod Decoding
pub mod RoundTrip
use platform_sdk.Base.{
  ℕ, ◌+◌, ◌-◌, ◌/◌, ◌%◌, ◌==◌, ltb, leb, Bool, true, false, ◌&&◌, ◌||◌, List, [], ◌∷◌, ◌++◌,
  if◌then◌else◌,
}

-- `hex_to_letter`: '0' is 48, 'A' is 65.
unfoldable pub hex_to_letter : ℕ → ℕ
hex_to_letter n = if ltb n 10 then n + 48 else if leb 10 n && ltb n 16 then n - 10 + 65 else n

-- A letter, a digit, or one of "-._~".
unfoldable pub is_unreserved : ℕ → Bool
is_unreserved c =
    leb 97 c && leb c 122
    || leb 65 c && leb c 90
    || leb 48 c && leb c 57
    || c == 45
    || c == 46
    || c == 95
    || c == 126

-- One of "/.@&%;=".
unfoldable pub is_ignored : ℕ → Bool
is_ignored c = c == 47 || c == 46 || c == 64 || c == 38 || c == 37 || c == 59 || c == 61

unfoldable pub encode_char : ℕ → List ℕ
encode_char c =
    if is_unreserved c
    then c ∷ []
    else if is_ignored c
    then c ∷ []
    else 37 ∷ hex_to_letter (c / 16 % 16) ∷ hex_to_letter (c % 16) ∷ []

-- The loop over the characters of one pair.
unfoldable pub encode : List ℕ → List ℕ
encode [] = []
encode (c ∷ cs) = encode_char c ++ encode cs

-- The map has its entries in the order of its iteration. `first` is the test for `begin`.
unfoldable pub encode_pairs : Bool → List (List ℕ × List ℕ) → List ℕ
encode_pairs first [] = []
encode_pairs first ((key, value) ∷ q) =
    (if first then [] else 38 ∷ []) ++ encode (key ++ 61 ∷ [] ++ value) ++ encode_pairs false q

unfoldable pub encode_query : List (List ℕ × List ℕ) → List ℕ
encode_query q = encode_pairs true q
