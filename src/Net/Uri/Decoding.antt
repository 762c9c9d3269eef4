-- ===== src/Net/Uri/Decoding.antt =====
-- What a server makes of a query.
use platform_sdk.Base.{ℕ, ◌+◌, ◌-◌, ◌*◌, ◌==◌, ltb, true, false, List, [], ◌∷◌, map, if◌then◌else◌}

-- The number of a hexadecimal digit.
abbrev pub digit : ℕ → ℕ
digit c = if ltb c 65 then c - 48 else c - 55

-- '%' and two digits stand for a character.
abbrev pub decode : List ℕ → List ℕ
decode [] = []
decode (c ∷ []) = c ∷ []
decode (c ∷ a ∷ []) = c ∷ a ∷ []
decode (c ∷ a ∷ b ∷ cs) = elim (c == 37) [
  | true ↦ (digit a * 16 + digit b) ∷ decode cs
  | false ↦ c ∷ decode (a ∷ b ∷ cs)
]

-- The parts between separators, the first by itself.
abbrev pub split : ℕ → List ℕ → List ℕ × List (List ℕ)
split s [] = ([], [])
split s (c ∷ cs) =
    let (part, parts) = split s cs in if c == s then ([], part ∷ parts) else (c ∷ part, parts)

-- What is before the first separator, and after it.
abbrev pub cut : ℕ → List ℕ → List ℕ × List ℕ
cut s [] = ([], [])
cut s (c ∷ cs) = let (before, after) = cut s cs in if c == s then ([], cs) else (c ∷ before, after)

-- A key and a value: '=' is 61.
abbrev pub read_pair : List ℕ → List ℕ × List ℕ
read_pair cs = let (key, value) = cut 61 cs in (decode key, decode value)

-- '&' is 38.
abbrev pub read_query : List ℕ → List (List ℕ × List ℕ)
read_query cs = let (part, parts) = split 38 cs in map read_pair (part ∷ parts)
