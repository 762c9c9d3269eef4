-- ===== src/Mavlink/TcpRoute/Stall.antt =====
-- A failed write with messages behind it ends all writing.
use platform_sdk.Base.{
  true, false, ◌==◌, ◌≡◌, refl, sym, ap, subst, ◌∙◌, none, some, List, [], ◌∷◌, ◌++◌, length,
  length-append, append_assoc, append-nil, arith,
}
use platform_sdk.Mavlink.TcpRoute.Sessions.{
  Session, emplace, pop, complete, Event, emplaced, completed, step, run,
}
use platform_sdk.Mavlink.TcpRoute.Queue.{given}

module _ {B : Type 0} where
  -- A session with buffers and no write.
  record IsStalled (bs ws : List B) (s : Session B) : Type 0 where
    waiting : s.buffers ≡ bs
    idle : s.outstanding ≡ none
    written : s.writes ≡ ws

  step-IsStalled :
      (b : B) (bs ws : List B) (e : Event B) (s : Session B)
      → IsStalled (b ∷ bs) ws s
      → IsStalled (b ∷ (bs ++ given (e ∷ []))) ws (step e s)
  unfolding step emplace complete
  step-IsStalled b bs ws (emplaced c) s h =
      let more : (length (s.buffers ++ c ∷ []) == 1) ≡ false =
        rw h.waiting (ground (arith, length-append bs (c ∷ []))) in
      rw more
        (record { waiting = ap (λ l. l ++ c ∷ []) h.waiting; idle = h.idle; written = h.written })
  step-IsStalled b bs ws (completed error) s h =
      let kept : complete error s ≡ s = simp (complete, h.idle) in rw (kept, append-nil bs) h

  given-cons : (e : Event B) (es : List (Event B)) → given (e ∷ es) ≡ given (e ∷ []) ++ given es
  given-cons (emplaced b) es = refl
  given-cons (completed error) es = refl

  run-IsStalled :
      (b : B) (bs ws : List B) (es : List (Event B)) (s : Session B)
      → IsStalled (b ∷ bs) ws s
      → IsStalled (b ∷ (bs ++ given es)) ws (run es s)
  unfolding run
  run-IsStalled b bs ws [] s h = rw (append-nil bs) h
  run-IsStalled b bs ws (e ∷ es) s h =
      let next =
        run-IsStalled b (bs ++ given (e ∷ [])) ws es (step e s) (step-IsStalled b bs ws e s h) in
      subst (λ l. IsStalled (b ∷ l) ws (run es (step e s)))
        (append_assoc bs (given (e ∷ [])) (given es) ∙ ap (λ l. bs ++ l) (sym (given-cons e es)))
        next

  -- Once a write has failed while `c` waits behind its buffer `b`, the session is given messages
  -- and keeps them all, but never writes again, whatever happens.
  pub complete-run :
      (b c : B) (bs : List B) (es : List (Event B)) (s : Session B)
      → s.buffers ≡ b ∷ c ∷ bs
      → s.outstanding ≡ some b
      → (run es (complete true s)).writes ≡ s.writes
        × ((run es (complete true s)).buffers ≡ c ∷ (bs ++ given es))
  unfolding complete pop
  complete-run b c bs es s waiting writing =
      let failed : IsStalled (c ∷ bs) s.writes (complete true s) =
        let ended : complete true s ≡ record s { buffers = pop s.buffers; outstanding = none } =
          simp (complete, writing) in
        rw ended (record { waiting = ap pop waiting; idle = refl; written = refl }) in
      let h = run-IsStalled c bs s.writes es (complete true s) failed in (h.written, h.waiting)
