-- ===== src/Mavlink/TcpRoute/Queue.antt =====
-- As long as no write fails, a session writes what it was given, in order and one at a time.
use platform_sdk.Base.{
  ℕ, zero, suc, false, ◌==◌, ◌≤◌, ◌≡◌, refl, sym, ap, ◌∙◌, Option, none, some, List, [], ◌∷◌, ◌++◌,
  length, length-append, append_assoc, append-nil, All, arith,
}
use platform_sdk.Mavlink.TcpRoute.Sessions.{
  Session, create, write_front, emplace, pop, complete, Event, emplaced, completed, step, run,
}

abbrev pub front {ℓ} : {A : Type ℓ} → List A → Option A
front [] = none
front (a ∷ rest) = some a

module _ {B : Type 0} where
  abbrev pub given : List (Event B) → List B
  given [] = []
  given (emplaced b ∷ es) = b ∷ given es
  given (completed error ∷ es) = given es

  -- The write succeeded.
  abbrev pub Succeeds : Event B → Type 0
  Succeeds (emplaced b) = Unit
  Succeeds (completed error) = error ≡ false

  -- The front is being written, and what was written with what waits behind the front is `bs`.
  pub record Carries (bs : List B) (s : Session B) : Type 0 where
    pub writing : s.outstanding ≡ front s.buffers
    pub order : s.writes ++ pop s.buffers ≡ bs

  emplaced_at :
      (bs : List B) (b : B) (buffers : List B) (o : Option B) (w : List B)
      → o ≡ front buffers
      → w ++ pop buffers ≡ bs
      → Carries
          (bs ++ b ∷ [])
          (emplace b (record { buffers = buffers; outstanding = o; writes = w }))
  unfolding emplace write_front pop
  emplaced_at bs b [] o w writing order = record {
    writing = refl;
    order = append-nil (w ++ b ∷ []) ∙ ap (λ l. l ++ b ∷ []) (sym (append-nil w) ∙ order);
  }
  emplaced_at bs b (x ∷ rest) o w writing order =
      let more : (suc (length (rest ++ b ∷ [])) == 1) ≡ false =
        ground (arith, length-append rest (b ∷ [])) in
      rw more (record {
        writing = writing;
        order = sym (append_assoc w rest (b ∷ [])) ∙ ap (λ l. l ++ b ∷ []) order;
      })

  emplace-Carries :
      (bs : List B) (b : B) (s : Session B) → Carries bs s → Carries (bs ++ b ∷ []) (emplace b s)
  emplace-Carries bs b s h = emplaced_at bs b s.buffers s.outstanding s.writes h.writing h.order

  completed_at :
      (bs buffers : List B) (o : Option B) (w : List B)
      → o ≡ front buffers
      → w ++ pop buffers ≡ bs
      → Carries bs (complete false (record { buffers = buffers; outstanding = o; writes = w }))
  unfolding complete write_front pop
  completed_at bs [] o w writing order = rw writing (record { writing = writing; order = order })
  completed_at bs (b ∷ []) o w writing order = rw writing (record { writing = refl; order = order })
  completed_at bs (b ∷ c ∷ rest) o w writing order =
      rw writing (record { writing = refl; order = append_assoc w (c ∷ []) rest ∙ order })

  complete-Carries : (bs : List B) (s : Session B) → Carries bs s → Carries bs (complete false s)
  complete-Carries bs s h = completed_at bs s.buffers s.outstanding s.writes h.writing h.order

  pub create-Carries : Carries [] create
  unfolding create pop
  create-Carries = record { writing = refl; order = refl }

  pub run-Carries :
      (bs : List B) (es : List (Event B)) (s : Session B)
      → All Succeeds es
      → Carries bs s
      → Carries (bs ++ given es) (run es s)
  unfolding run step
  run-Carries bs [] s ok h = rw (append-nil bs) h
  run-Carries bs (emplaced b ∷ es) s ok h =
      rw (sym (append_assoc bs (b ∷ []) (given es)))
        (run-Carries (bs ++ b ∷ []) es (emplace b s) ok.1 (emplace-Carries bs b s h))
  run-Carries bs (completed error ∷ es) s ok h =
      rw ok.0 (run-Carries bs es (complete false s) ok.1 (complete-Carries bs s h))

  -- That many writes succeed.
  abbrev pub successes : ℕ → List (Event B)
  successes zero = []
  successes (suc n) = completed false ∷ successes n

  popped :
      (buffers : List B) (o : Option B) (w : List B)
      → o ≡ front buffers
      → (complete false (record { buffers = buffers; outstanding = o; writes = w })).buffers
        ≡ pop buffers
  unfolding complete write_front pop
  popped [] o w writing = rw writing refl
  popped (b ∷ []) o w writing = rw writing refl
  popped (b ∷ c ∷ rest) o w writing = rw writing refl

  length-pop : (n : ℕ) (l : List B) → length l ≤ suc n → length (pop l) ≤ n
  unfolding pop
  length-pop n [] h = omega arith
  length-pop n (b ∷ l) h = omega arith

  length_lem : (l : List B) → length l ≤ 0 → l ≡ []
  length_lem [] h = refl
  length_lem (b ∷ l) h = ground arith

  successes-Carries :
      (n : ℕ) (bs : List B) (s : Session B)
      → Carries bs s
      → length s.buffers ≤ n
      → (run (successes n) s).writes ≡ bs × ((run (successes n) s).buffers ≡ [])
  unfolding run step pop
  successes-Carries zero bs s h e =
      let nothing : s.buffers ≡ [] = length_lem s.buffers e in
      (sym (append-nil s.writes) ∙ ap (λ l. s.writes ++ pop l) (sym nothing) ∙ h.order, nothing)
  successes-Carries (suc n) bs s h e =
      let fewer : (complete false s).buffers ≡ pop s.buffers =
        popped s.buffers s.outstanding s.writes h.writing in
      successes-Carries n bs (complete false s) (complete-Carries bs s h)
        (rw fewer (length-pop n s.buffers e))

  -- After any posts and successful writes, as many further successes as there are buffers leave no
  -- buffer behind, and the socket was then given every message that was posted, once each and in
  -- their order.
  pub run-writes :
      (n : ℕ) (es : List (Event B))
      → All Succeeds es
      → length (run es create).buffers ≤ n
      → (run (successes n) (run es create)).writes ≡ given es
        × ((run (successes n) (run es create)).buffers ≡ [])
  run-writes n es ok enough =
      successes-Carries n (given es) (run es create) (run-Carries [] es create ok create-Carries)
        enough
