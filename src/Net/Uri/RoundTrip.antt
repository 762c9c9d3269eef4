-- ===== src/Net/Uri/RoundTrip.antt =====
-- What is read of a query that was encoded.
use platform_sdk.Base.{
  ℕ, ◌+◌, ◌*◌, ◌/◌, ◌%◌, ◌<◌, ◌==◌, ◌≡◌, ◌≢◌, refl, sym, ap, ◌∙◌, false, ◌||◌, ◌⊎◌, inl, inr,
  Bool-cases, List, [], ◌∷◌, ◌++◌, append_assoc, append-nil, All, map, arith,
}
use platform_sdk.Net.Uri.{
  hex_to_letter, is_unreserved, is_ignored, encode_char, encode, encode_pairs, encode_query,
}
use platform_sdk.Net.Uri.Decoding.{digit, decode, split, cut, read_pair, read_query}

digit-hex_to_letter : (n : ℕ) → n < 16 → digit (hex_to_letter n) ≡ n
unfolding hex_to_letter
digit-hex_to_letter n h = ground arith

decode-cons : (c : ℕ) (cs : List ℕ) → c ≢ 37 → decode (c ∷ cs) ≡ c ∷ decode cs
decode-cons c [] h = refl
decode-cons c (a ∷ []) h = refl
decode-cons c (a ∷ b ∷ cs) h = let no : (c == 37) ≡ false = ground arith in rw (decode, no) refl

-- A byte that is not '%'.
abbrev IsByte : ℕ → Type 0
IsByte c = (c < 256) × (c ≢ 37)

decode-encode_char : (c : ℕ) (cs : List ℕ) → IsByte c → decode (encode_char c ++ cs) ≡ c ∷ decode cs
unfolding encode_char
decode-encode_char c cs h = elim (Bool-cases (is_unreserved c || is_ignored c)) [
  | inl plain ↦ let as_is : encode_char c ≡ c ∷ [] = ground arith in rw as_is (decode-cons c cs h.1)
  | inr special ↦
      let escaped : encode_char c ≡ 37 ∷ hex_to_letter (c / 16 % 16) ∷ hex_to_letter (c % 16) ∷ [] =
        ground arith in
      let number : c / 16 % 16 * 16 + c % 16 ≡ c = omega (arith, h.0) in
      rw
        (
          escaped,
          digit-hex_to_letter (c / 16 % 16) (omega arith),
          digit-hex_to_letter (c % 16) (omega arith),
          number,
        )
        refl
]

decode-encode : (cs : List ℕ) → All IsByte cs → decode (encode cs) ≡ cs
unfolding encode
decode-encode [] h = refl
decode-encode (c ∷ cs) h =
    decode-encode_char c (encode cs) h.0 ∙ ap (λ l. c ∷ l) (decode-encode cs h.1)

-- The encoding brings in no separator.
abbrev Avoids : ℕ → List ℕ → Type 0
Avoids s cs = All (λ (c : ℕ). c ≢ s) cs

-- '&' and '=' are neither '%' nor a hexadecimal digit.
abbrev IsSeparator : ℕ → Type 0
IsSeparator s = (s ≡ 38) ⊎ (s ≡ 61)

All-append : (P : ℕ → Type 0) (xs ys : List ℕ) → All P xs → All P ys → All P (xs ++ ys)
All-append P [] ys h k = k
All-append P (x ∷ xs) ys h k = (h.0, All-append P xs ys h.1 k)

hex_to_letter_lem : (n s : ℕ) → n < 16 → IsSeparator s → hex_to_letter n ≢ s
unfolding hex_to_letter
hex_to_letter_lem n s h (inl amp) = ground arith
hex_to_letter_lem n s h (inr equals) = ground arith

percent_lem : (s : ℕ) → IsSeparator s → 37 ≢ s
percent_lem s (inl amp) = omega arith
percent_lem s (inr equals) = omega arith

encode_char-Avoids : (c : ℕ) → (s : ℕ) → IsSeparator s → c ≢ s → Avoids s (encode_char c)
unfolding encode_char
encode_char-Avoids c s sep h = elim (Bool-cases (is_unreserved c || is_ignored c)) [
  | inl plain ↦ let as_is : encode_char c ≡ c ∷ [] = ground arith in rw as_is (h, tt)
  | inr special ↦
      let escaped : encode_char c ≡ 37 ∷ hex_to_letter (c / 16 % 16) ∷ hex_to_letter (c % 16) ∷ [] =
        ground arith in
      rw escaped (
        percent_lem s sep,
        (
          hex_to_letter_lem (c / 16 % 16) s (omega arith) sep,
          (hex_to_letter_lem (c % 16) s (omega arith) sep, tt),
        ),
      )
]

encode-Avoids : (s : ℕ) (cs : List ℕ) → IsSeparator s → Avoids s cs → Avoids s (encode cs)
unfolding encode
encode-Avoids s [] sep h = tt
encode-Avoids s (c ∷ cs) sep h =
    All-append (λ (b : ℕ). b ≢ s) (encode_char c) (encode cs) (encode_char-Avoids c s sep h.0)
      (encode-Avoids s cs sep h.1)

encode-append : (xs ys : List ℕ) → encode (xs ++ ys) ≡ encode xs ++ encode ys
unfolding encode
encode-append [] ys = refl
encode-append (x ∷ xs) ys =
    ap (λ l. encode_char x ++ l) (encode-append xs ys)
    ∙ sym (append_assoc (encode_char x) (encode xs) (encode ys))

split-append :
    (s : ℕ) (xs ys : List ℕ)
    → Avoids s xs
    → split s (xs ++ (s ∷ ys)) ≡ (xs, (split s ys).0 ∷ (split s ys).1)
split-append s [] ys h = ground arith
split-append s (x ∷ xs) ys h = ground (arith, split-append s xs ys h.1)

split-Avoids : (s : ℕ) (xs : List ℕ) → Avoids s xs → split s xs ≡ (xs, [])
split-Avoids s [] h = refl
split-Avoids s (x ∷ xs) h = ground (arith, split-Avoids s xs h.1)

cut-append : (s : ℕ) (xs ys : List ℕ) → Avoids s xs → cut s (xs ++ (s ∷ ys)) ≡ (xs, ys)
cut-append s [] ys h = ground arith
cut-append s (x ∷ xs) ys h = ground (arith, cut-append s xs ys h.1)

abbrev pair : List ℕ × List ℕ → List ℕ
pair (key, value) = key ++ 61 ∷ [] ++ value

-- Bytes other than '%' and '&', and a key without '='.
abbrev pub IsPlain : List ℕ × List ℕ → Type 0
IsPlain (key, value) =
    All (λ (c : ℕ). (c < 256) × (c ≢ 37) × (c ≢ 38) × (c ≢ 61)) key
    × All (λ (c : ℕ). (c < 256) × (c ≢ 37) × (c ≢ 38)) value

All-map : (P Q : ℕ → Type 0) (xs : List ℕ) → ((c : ℕ) → P c → Q c) → All P xs → All Q xs
All-map P Q [] f h = tt
All-map P Q (x ∷ xs) f h = (f x h.0, All-map P Q xs f h.1)

pair-Avoids : (p : List ℕ × List ℕ) → IsPlain p → Avoids 38 (encode (pair p))
pair-Avoids (key, value) (h, k) = encode-Avoids 38 (key ++ 61 ∷ [] ++ value) (inl refl) (
    All-append _ (key ++ 61 ∷ []) value
      (All-append _ key (61 ∷ []) (All-map _ _ key (λ c b. b.2) h) (omega arith, tt))
      (All-map _ _ value (λ c b. b.2) k))

encode-pair : (key value : List ℕ) → encode (pair (key, value)) ≡ encode key ++ (61 ∷ encode value)
unfolding encode encode_char is_unreserved is_ignored
encode-pair key value =
    encode-append (key ++ 61 ∷ []) value
    ∙ ap (λ l. l ++ encode value) (encode-append key (61 ∷ []))
    ∙ append_assoc (encode key) (61 ∷ []) (encode value)

read_pair-encode : (p : List ℕ × List ℕ) → IsPlain p → read_pair (encode (pair p)) ≡ p
read_pair-encode (key, value) (h, k) =
    let clear : Avoids 61 (encode key) =
      encode-Avoids 61 key (inr refl) (All-map _ _ key (λ c b. b.3) h) in
    rw
      (
        encode-pair key value,
        cut-append 61 (encode key) (encode value) clear,
        decode-encode key (All-map _ _ key (λ c b. (b.0, b.1)) h),
        decode-encode value (All-map _ _ value (λ c b. (b.0, b.1)) k),
      )
      refl

split-encode_pairs :
    (part : List ℕ) (q : List (List ℕ × List ℕ))
    → Avoids 38 part
    → All IsPlain q
    → split 38 (part ++ encode_pairs false q) ≡ (part, map (λ p. encode (pair p)) q)
unfolding encode_pairs
split-encode_pairs part [] clear h = rw (append-nil part) (split-Avoids 38 part clear)
split-encode_pairs part (p ∷ q) clear h =
    let rest = split-encode_pairs (encode (pair p)) q (pair-Avoids p h.0) h.1 in
    split-append 38 part (encode (pair p) ++ encode_pairs false q) clear ∙ rw rest refl

map-read_pair :
    (q : List (List ℕ × List ℕ)) → All IsPlain q → map read_pair (map (λ p. encode (pair p)) q) ≡ q
map-read_pair [] h = refl
map-read_pair (p ∷ q) h = rw (read_pair-encode p h.0, map-read_pair q h.1) refl

-- A query with at least one pair, of bytes other than '%' and '&' and with keys without '=', is read
-- by the server as it was.
pub read_query-encode_query :
    (p : List ℕ × List ℕ) (q : List (List ℕ × List ℕ))
    → IsPlain p
    → All IsPlain q
    → read_query (encode_query (p ∷ q)) ≡ p ∷ q
unfolding encode_query encode_pairs
read_query-encode_query p q h k =
    rw (split-encode_pairs (encode (pair p)) q (pair-Avoids p h) k) (map-read_pair (p ∷ q) (h, k))
