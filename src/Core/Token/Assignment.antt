-- ===== src/Core/Token/Assignment.antt =====
-- The assignment of tokens, and their names.
use platform_sdk.Base.{
  ℕ, ◌==◌, ◌≡◌, refl, sym, subst, Option, none, some, if◌then◌else◌, Bool-cases, inl, inr, arith,
}
use platform_sdk.Core.Token.{
  TokenType, unknown, anonymous, oauth, refreshed, Member, nothing, anonymous_member, oauth_member,
  refreshed_member, Token, anonymous_of, oauth_of, refreshed_of, construct, destruct, assign, print,
  parse,
}

-- The union has the member of the type, and none for an unknown token.
abbrev pub selected : Member → TokenType
selected nothing = unknown
selected (anonymous_member x) = anonymous
selected (oauth_member x) = oauth
selected (refreshed_member x) = refreshed

abbrev pub IsSound : Token → Type 0
IsSound t = t.type ≡ selected t.member

-- A token that was destructed or never constructed.
abbrev pub blank : Token
blank = record { type = unknown; member = nothing }

-- What an assignment leaves.
abbrev pub IsAssigned : ℕ → ℕ → (ℕ → Token) → Option (ℕ → Token) → Type 0
IsAssigned i j st none = ⊥
IsAssigned i j st (some st') =
    (k : ℕ) → st' k ≡ (if k == i then (if j == i then blank else st j) else st k)

destruct_lem : (m : Member) → destruct (record { type = selected m; member = m }) ≡ some blank
unfolding destruct anonymous_of oauth_of refreshed_of
destruct_lem nothing = refl
destruct_lem (anonymous_member x) = refl
destruct_lem (oauth_member x) = refl
destruct_lem (refreshed_member x) = refl

construct_lem :
    (m : Member)
    → construct (record { type = selected m; member = m }) blank
      ≡ some (record { type = selected m; member = m })
unfolding construct anonymous_of oauth_of refreshed_of
construct_lem nothing = refl
construct_lem (anonymous_member x) = refl
construct_lem (oauth_member x) = refl
construct_lem (refreshed_member x) = refl

sound-destruct : (t : Token) → IsSound t → destruct t ≡ some blank
sound-destruct t h =
    subst (λ y. destruct (record { type = y; member = t.member }) ≡ some blank) (sym h)
      (destruct_lem t.member)

sound-construct : (t : Token) → IsSound t → construct t blank ≡ some t
sound-construct t h =
    subst
      (λ y.
        construct (record { type = y; member = t.member }) blank
        ≡ some (record { type = y; member = t.member }))
      (sym h) (construct_lem t.member)

-- Where the unions of both tokens have the members of their types, an assignment makes the one what
-- the other is and leaves all others alone; but a token that is assigned to itself is unknown
-- afterwards.
pub assign-IsAssigned_token :
    (i j : ℕ) (st : ℕ → Token) → IsSound (st i) → IsSound (st j) → IsAssigned i j st (assign i j st)
unfolding assign
assign-IsAssigned_token i j st si sj = elim (Bool-cases (j == i)) [
  | inl same ↦ rw (sound-destruct (st i) si, same, sound-construct blank refl) (λ k. ground arith)
  | inr other ↦ rw (sound-destruct (st i) si, other, sound-construct (st j) sj) (λ k. ground arith)
]

-- The name of a type is read as that type, whatever the type was before.
pub parse-print_token : (t u : TokenType) → parse (print t) u ≡ t
unfolding parse print
parse-print_token anonymous u = refl
parse-print_token oauth u = refl
parse-print_token refreshed u = refl
parse-print_token unknown u = refl
