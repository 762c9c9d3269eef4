-- ===== src/Codec/Json/Token/RoundTrip.antt =====
-- A token that is written and read.
use platform_sdk.Base.{
  ℕ, ◌==◌, true, false, ◌≡◌, refl, ◌∙◌, String, Option, none, some, ◌>>=◌, if◌then◌else◌, str_eq,
  Bool-cases, inl, inr, Option-cases, ap,
}
use platform_sdk.Core.Token.{
  TokenType, unknown, anonymous, oauth, refreshed, Anonymous, OAuth, Refreshed, Member, Token,
  nothing, anonymous_member, oauth_member, refreshed_member, anonymous_of, oauth_of, refreshed_of,
  print,
}
use platform_sdk.Core.Token.Assignment.{selected, parse-print_token}
use platform_sdk.Codec.Json.{Library, Texts, get}
use platform_sdk.Codec.Json.Token.{
  bearer, encode_oauth_type, encode_anonymous, encode_oauth, encode_refreshed, encode,
  decode_oauth_type, decode_anonymous, decode_oauth, decode_optional, decode_refreshed, decode_type,
  decode, to_text, load_from_json,
}

module _ (rest : ℕ) where
  -- A type that has no name is not written.
  abbrev pub kept : ℕ → ℕ
  kept t = if t == bearer then bearer else rest

  abbrev pub kept_oauth : OAuth → OAuth
  kept_oauth x = record x { type = kept x.type }

  abbrev pub kept_original : Option OAuth → Option OAuth
  kept_original none = none
  kept_original (some x) = some (kept_oauth x)

module _ {J : Type 0} ⦃lib : Library J⦄ where
  open lib use {null, put, find, is_null, of_string, get_string, of_number, get_number, takes_keys}

  get-put :
      {A : Type 0} (f : J → Option A) (key : String) (v j : J) (old : A)
      → takes_keys j ≡ true
      → str_eq key key ≡ true
      → get f key (put key v j) old ≡ (if is_null v then some old else f v)
  unfolding get
  get-put f key v j old h same = rw (get, lib.find-put key key v j h, same) refl

  get-skip :
      {A : Type 0} (f : J → Option A) (key k : String) (v j : J) (old : A)
      → takes_keys j ≡ true
      → str_eq key k ≡ false
      → get f key (put k v j) old ≡ get f key j old
  unfolding get
  get-skip f key k v j old h other = rw (get, lib.find-put key k v j h, other) refl

  get-null :
      {A : Type 0} (f : J → Option A) (key : String) (old : A) → get f key null old ≡ some old
  unfolding get
  get-null f key old = rw (get, lib.find-null key) refl

  get-string :
      (key s : String) (j : J) (old : String)
      → takes_keys j ≡ true
      → str_eq key key ≡ true
      → get get_string key (put key (of_string s) j) old ≡ some s
  get-string key s j old h same =
      get-put get_string key (of_string s) j old h same
      ∙ rw (lib.is_null-of_string s, lib.get_string-of_string s) refl

  get-number :
      (key : String) (n : ℕ) (j : J) (old : ℕ)
      → takes_keys j ≡ true
      → str_eq key key ≡ true
      → get get_number key (put key (of_number n) j) old ≡ some n
  get-number key n j old h same =
      get-put get_number key (of_number n) j old h same
      ∙ rw (lib.is_null-of_number n, lib.get_number-of_number n) refl

  module _ (rest : ℕ) (rest_type : TokenType) where
    get-type :
        (key : String) (t : ℕ) (j : J)
        → takes_keys j ≡ true
        → str_eq key key ≡ true
        → get (decode_oauth_type rest rest_type rest) key (put key (encode_oauth_type t) j) rest
          ≡ some (kept rest t)
    unfolding encode_oauth_type decode_oauth_type
    get-type key t j h same =
        get-put (decode_oauth_type rest rest_type rest) key (encode_oauth_type t) j rest h same
        ∙ elim (Bool-cases (t == bearer)) [
          | inl e ↦ rw (e, lib.is_null-of_string "bearer", lib.get_string-of_string "bearer") refl
          | inr e ↦ rw (e, lib.is_null-null) refl
        ]

module _ (J : Type 0) ⦃lib : Library J⦄ (rest : ℕ) (rest_type : TokenType) where
  open lib use {null, put, find, is_null, of_string, get_string, of_number, get_number, takes_keys}

  oauth_lem :
      (x : OAuth) → decode_oauth {J = J} rest rest_type (encode_oauth x) ≡ some (kept_oauth rest x)
  unfolding decode_oauth encode_oauth
  oauth_lem x =
      let j₁ = put "refresh_token" (of_string x.refresh) null in
      let j₂ = put "id_token" (of_string x.id) j₁ in
      let j₃ = put "access_token" (of_string x.access) j₂ in
      let k₀ = lib.null_takes_keys in
      let k₁ = lib.put_takes_keys "refresh_token" (of_string x.refresh) null k₀ in
      let k₂ = lib.put_takes_keys "id_token" (of_string x.id) j₁ k₁ in
      let k₃ = lib.put_takes_keys "access_token" (of_string x.access) j₂ k₂ in
      let type = encode_oauth_type x.type in
      rw
        (
          get-skip get_string "refresh_token" "token_type" type j₃ "" k₃ refl,
          get-skip get_string "refresh_token" "access_token" (of_string x.access) j₂ "" k₂ refl,
          get-skip get_string "refresh_token" "id_token" (of_string x.id) j₁ "" k₁ refl,
          get-string "refresh_token" x.refresh null "" k₀ refl,
          get-skip get_string "id_token" "token_type" type j₃ "" k₃ refl,
          get-skip get_string "id_token" "access_token" (of_string x.access) j₂ "" k₂ refl,
          get-string "id_token" x.id j₁ "" k₁ refl,
          get-skip get_string "access_token" "token_type" type j₃ "" k₃ refl,
          get-string "access_token" x.access j₂ "" k₂ refl,
          get-type rest rest_type "token_type" x.type j₃ k₃ refl,
        )
        refl

  shown_oauth : (x : OAuth) → is_null (encode_oauth x) ≡ false
  unfolding encode_oauth
  shown_oauth x =
      let j₁ = put "refresh_token" (of_string x.refresh) null in
      let j₂ = put "id_token" (of_string x.id) j₁ in
      let j₃ = put "access_token" (of_string x.access) j₂ in
      let k₁ = lib.put_takes_keys "refresh_token" (of_string x.refresh) null lib.null_takes_keys in
      let k₂ = lib.put_takes_keys "id_token" (of_string x.id) j₁ k₁ in
      let k₃ = lib.put_takes_keys "access_token" (of_string x.access) j₂ k₂ in
      lib.is_null-put "token_type" (encode_oauth_type x.type) j₃ k₃

  original_lem :
      (x : OAuth) (j : J)
      → takes_keys j ≡ true
      → get
          (decode_optional rest rest_type (decode_oauth rest rest_type))
          "original_token"
          (put "original_token" (encode_oauth x) j)
          none
        ≡ some (some (kept_oauth rest x))
  unfolding decode_optional
  original_lem x j h =
      get-put (decode_optional rest rest_type (decode_oauth rest rest_type)) "original_token"
        (encode_oauth x) j none h refl
      ∙ rw (shown_oauth x, oauth_lem x) refl

  refreshed_lem :
      (x : Refreshed)
      → decode_refreshed {J = J} rest rest_type rest (encode_refreshed x)
        ≡ some (record x {
          type = kept rest x.type;
          original_token = kept_original rest x.original_token;
        })
  unfolding decode_refreshed encode_refreshed
  refreshed_lem x =
      let type = encode_oauth_type x.type in
      let j₁ = put "token_type" type null in
      let j₂ = put "expires_in" (of_number x.expires_in) j₁ in
      let j₃ = put "id_token" (of_string x.id) j₂ in
      let k₀ = lib.null_takes_keys in
      let k₁ = lib.put_takes_keys "token_type" type null k₀ in
      let k₂ = lib.put_takes_keys "expires_in" (of_number x.expires_in) j₁ k₁ in
      let k₃ = lib.put_takes_keys "id_token" (of_string x.id) j₂ k₂ in
      let read = decode_oauth_type rest rest_type rest in
      let optional = decode_optional rest rest_type (decode_oauth rest rest_type) in
      let e_type =
        get-skip read "token_type" "id_token" (of_string x.id) j₂ rest k₂ refl
        ∙ get-skip read "token_type" "expires_in" (of_number x.expires_in) j₁ rest k₁ refl
        ∙ get-type rest rest_type "token_type" x.type null k₀ refl in
      let e_expires =
        get-skip get_number "expires_in" "id_token" (of_string x.id) j₂ rest k₂ refl
        ∙ get-number "expires_in" x.expires_in j₁ rest k₁ refl in
      let e_id = get-string "id_token" x.id j₂ "" k₂ refl in
      elim (Option-cases x.original_token) [
        | inl e ↦
            rw
              (
                e,
                e_type,
                e_expires,
                e_id,
                get-skip optional "original_token" "id_token" (of_string x.id) j₂ none k₂ refl,
                get-skip optional "original_token" "expires_in" (of_number x.expires_in) j₁ none k₁
                    refl,
                get-skip optional "original_token" "token_type" type null none k₀ refl,
                get-null optional "original_token" none,
              )
              refl
        | inr (y, e) ↦
            let v = encode_oauth y in
            rw
              (
                e,
                get-skip read "token_type" "original_token" v j₃ rest k₃ refl ∙ e_type,
                get-skip get_number "expires_in" "original_token" v j₃ rest k₃ refl ∙ e_expires,
                get-skip get_string "id_token" "original_token" v j₃ "" k₃ refl ∙ e_id,
                original_lem y j₃ k₃,
              )
              refl
      ]

  -- What is read of a token that is written: a type that has no name is not, and a token of an unknown
  -- type has no member.
  abbrev pub settled : Token → Token
  settled t = elim t.member [
    | nothing ↦ t
    | anonymous_member x ↦ t
    | oauth_member x ↦ record t { member = oauth_member (kept_oauth rest x) }
    | refreshed_member x ↦ record t {
      member = refreshed_member (record x {
        type = kept rest x.type;
        original_token = kept_original rest x.original_token;
      });
    }
  ]

  type_lem :
      (t : TokenType) (word : lib.read_word (print t) ≡ some (print t))
      → decode_type rest rest_type (of_string (print t)) ≡ some t
  unfolding decode_type
  type_lem t word =
      rw (lib.get_string-of_string (print t), word) (ap some (parse-print_token t rest_type))

  anonymous_lem :
      (x : Anonymous) → decode_anonymous {J = J} rest rest_type (encode_anonymous x) ≡ some x
  unfolding decode_anonymous encode_anonymous
  anonymous_lem x = rw (get-string "id_token" x.id null "" lib.null_takes_keys refl) refl

  -- The members of the document of a token.
  find-member :
      (name key : String) (v : J)
      → str_eq "type" key ≡ false
      → str_eq key key ≡ true
      → (find "type" (put key v (put "type" (of_string name) null)) ≡ some (of_string name))
        × (find key (put key v (put "type" (of_string name) null)) ≡ some v)
  find-member name key v other same =
      let k = lib.put_takes_keys "type" (of_string name) null lib.null_takes_keys in
      (
        rw
            (
              lib.find-put "type" key v (put "type" (of_string name) null) k,
              other,
              lib.find-put "type" "type" (of_string name) null lib.null_takes_keys,
            )
            refl,
        rw (lib.find-put key key v (put "type" (of_string name) null) k, same) refl,
      )

  -- A token with the member of its type is written, and read as what it was, where the name of each
  -- type of token is read as one word. Only the type of an OAuth or refreshed token, also within an
  -- original token, is what was there before it is read, if it is not the one type that has a name.
  pub decode-encode :
      (m : Member)
      → ((t : TokenType) → lib.read_word (print t) ≡ some (print t))
      → (encode {J = J} (record { type = selected m; member = m }) >>= λ j. decode rest rest_type j)
        ≡ some (settled (record { type = selected m; member = m }))
  unfolding encode decode anonymous_of oauth_of refreshed_of
  decode-encode nothing word =
      rw
        (
          lib.find-put "type" "type" (of_string (print unknown)) null lib.null_takes_keys,
          type_lem unknown (word unknown),
        )
        refl
  decode-encode (anonymous_member x) word =
      let (named, there) =
        find-member (print anonymous) "anonymous" (encode_anonymous x) refl refl in
      rw (named, type_lem anonymous (word anonymous), there, anonymous_lem x) refl
  decode-encode (oauth_member x) word =
      let (named, there) = find-member (print oauth) "oauth" (encode_oauth x) refl refl in
      rw (named, type_lem oauth (word oauth), there, oauth_lem x) refl
  decode-encode (refreshed_member x) word =
      let (named, there) =
        find-member (print refreshed) "refreshed" (encode_refreshed x) refl refl in
      rw (named, type_lem refreshed (word refreshed), there, refreshed_lem x) refl

module _ (J : Type 0) {F : Type 0} ⦃lib : Library J⦄ ⦃texts : Texts J F⦄ (rest : ℕ)
    (rest_type : TokenType) where
  -- What a file is given of a token with the member of its type, and what is read of it.
  pub load_from_json-to_text :
      (m : Member)
      → ((t : TokenType) → lib.read_word (print t) ≡ some (print t))
      → (text : F) × (to_text J (record { type = selected m; member = m }) ≡ some text)
        × (load_from_json J rest rest_type text
            ≡ some (settled J rest rest_type (record { type = selected m; member = m })))
  unfolding to_text load_from_json
  load_from_json-to_text m word =
      let t : Token = record { type = selected m; member = m } in
      let back = decode-encode J rest rest_type m word in
      elim (Option-cases (encode {J = J} t)) [
        | inl e ↦ let q = rw e at back in cc
        | inr (j, e) ↦ (texts.dump j, rw e refl, rw (texts.parse-dump j) (rw e at back))
      ]
