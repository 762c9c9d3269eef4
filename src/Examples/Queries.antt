-- ===== src/Examples/Queries.antt =====
-- Queries that are encoded and read.
use platform_sdk.Base.{ℕ, ◌≡◌, refl, List, [], ◌∷◌, arith}
use platform_sdk.Net.Uri.{
  hex_to_letter, is_unreserved, is_ignored, encode_char, encode, encode_pairs, encode_query,
}
use platform_sdk.Net.Uri.Decoding.{read_query}
use platform_sdk.Net.Uri.RoundTrip.{read_query-encode_query}

-- "a=1 2" and "b=", where 'é' is two bytes of UTF-8.
abbrev spaced : List ℕ × List ℕ
spaced = (97 ∷ [], 49 ∷ 32 ∷ 195 ∷ 169 ∷ [])

abbrev bare : List ℕ × List ℕ
bare = (98 ∷ [], [])

read_query-encode_query_example :
    read_query (encode_query (spaced ∷ bare ∷ [])) ≡ spaced ∷ bare ∷ []
read_query-encode_query_example =
    read_query-encode_query spaced (bare ∷ [])
      (
        ((omega arith, omega arith, omega arith, omega arith), tt),
        (
          (omega arith, omega arith, omega arith),
          (
            (omega arith, omega arith, omega arith),
            (
              (omega arith, omega arith, omega arith),
              ((omega arith, omega arith, omega arith), tt),
            ),
          ),
        ),
      )
      ((((omega arith, omega arith, omega arith, omega arith), tt), tt), tt)

-- The value "1&c=2" is read as two pairs.
injected :
    read_query (encode_query ((97 ∷ [], 49 ∷ 38 ∷ 99 ∷ 61 ∷ 50 ∷ []) ∷ []))
    ≡ (97 ∷ [], 49 ∷ []) ∷ (99 ∷ [], 50 ∷ []) ∷ []
unfolding hex_to_letter is_unreserved is_ignored encode_char encode encode_pairs encode_query
injected = refl
