-- ===== src/Net/Requesters/Outstanding.antt =====
-- The calls that were made and are not finished.
use platform_sdk.Base.{
  ℕ, String, Bool, true, false, ◌||◌, ◌≡◌, refl, sym, subst, Bool-cases, inl, inr, Option, none,
  some, List, [], ◌∷◌, ◌++◌, map, str_eq, if◌then◌else◌, arith,
}
use platform_sdk.Net.Requesters.{put, find, erase, begin, finish, Event, begun, finished, run}

abbrev pub member : String → List String → Bool
member k [] = false
member k (j ∷ rest) = str_eq j k || member k rest

abbrev pub remove : String → List String → List String
remove k [] = []
remove k (j ∷ rest) = if str_eq j k then rest else j ∷ remove k rest

-- Each call has a UUID that no unfinished call has, and finishes once.
abbrev pub Allowed : List Event → List String → Type 0
Allowed [] pending = Unit
Allowed (begun uuid now ∷ es) pending =
    (member uuid pending ≡ false) × Allowed es (pending ++ uuid ∷ [])
Allowed (finished uuid ∷ es) pending =
    (member uuid pending ≡ true) × Allowed es (remove uuid pending)

-- The calls that are unfinished after some events.
abbrev pub unfinished : List Event → List String → List String
unfinished [] pending = pending
unfinished (begun uuid now ∷ es) pending = unfinished es (pending ++ uuid ∷ [])
unfinished (finished uuid ∷ es) pending = unfinished es (remove uuid pending)

abbrev pub keys : List (String × ℕ) → List String
keys l = map (λ e. e.0) l

keys-put :
    (k : String) (v : ℕ) (l : List (String × ℕ))
    → member k (keys l) ≡ false
    → keys (put k v l) ≡ keys l ++ k ∷ []
unfolding put
keys-put k v [] h = refl
keys-put k v ((j, w) ∷ l) h = ground (arith, keys-put k v l)

keys-erase : (k : String) (l : List (String × ℕ)) → keys (erase k l) ≡ remove k (keys l)
unfolding erase
keys-erase k [] = refl
keys-erase k ((j, w) ∷ l) = ground (arith, keys-erase k l)

find-keys :
    (k : String) (l : List (String × ℕ)) → member k (keys l) ≡ true → (v : ℕ) × (find k l ≡ some v)
unfolding find
find-keys k [] h = ground arith
find-keys k ((j, w) ∷ l) h = elim (Bool-cases (str_eq j k)) [
  | inl same ↦ rw same (w, refl)
  | inr other ↦ let rest : member k (keys l) ≡ true = ground arith in rw other (find-keys k l rest)
]

-- The run goes through, and the timestamps are those of `pending`, in its order.
abbrev pub Follows : List String → Option (List (String × ℕ)) → Type 0
Follows pending none = ⊥
Follows pending (some timestamps) = keys timestamps ≡ pending

-- Where each call has a UUID that no unfinished call has, and only calls that were made finish, once
-- each: no callback reads past the end of the map, whatever the order of the answers, and the map
-- holds a timestamp for exactly the calls that are unfinished, none for any other.
pub run-Follows :
    (es : List Event) (timestamps : List (String × ℕ))
    → Allowed es (keys timestamps)
    → Follows (unfinished es (keys timestamps)) (run es timestamps)
unfolding run begin finish
run-Follows [] timestamps h = refl
run-Follows (begun uuid now ∷ es) timestamps h =
    let e : keys (put uuid now timestamps) ≡ keys timestamps ++ uuid ∷ [] =
      keys-put uuid now timestamps h.0 in
    subst (λ ks. Follows (unfinished es ks) (run es (put uuid now timestamps))) e
      (run-Follows es (put uuid now timestamps) (subst (Allowed es) (sym e) h.1))
run-Follows (finished uuid ∷ es) timestamps h =
    let (v, found) = find-keys uuid timestamps h.0 in
    let e : keys (erase uuid timestamps) ≡ remove uuid (keys timestamps) =
      keys-erase uuid timestamps in
    rw found (
      subst (λ ks. Follows (unfinished es ks) (run es (erase uuid timestamps))) e
        (run-Follows es (erase uuid timestamps) (subst (Allowed es) (sym e) h.1)))
