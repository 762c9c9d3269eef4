-- ===== src/Monitor/Client/Delivery.antt =====
-- What a receiver is handed of what arrives.
use mathlib.Core.List.{append-nil, append_assoc}
use platform_sdk.Base.{ℕ, ◌≡◌, true, some, List, [], ◌∷◌, ◌++◌, arith, refl, sym}
use platform_sdk.Monitor.Service.Streaming.{is_streaming}
use platform_sdk.Monitor.Client.{
  Call, Client, Event, connects, runs_task, completes, subscribes, unsubscribes, create, step, run,
}
use platform_sdk.Monitor.Client.Streams.{
  IsOrdered, Goes, create-IsOrdered, step-IsOrdered, Goes-mono, Goes-both, Goes-bind, run-IsOrdered,
}
use platform_sdk.Monitor.Client.Handover.{
  told, queued, receives, arrived, stays, told-append, step-Delivers,
}

module _ {E T : Type 0} (decode : E → T) where
  stays_apart :
      (i r : ℕ) (e : Event E) (es : List (Event E))
      → stays i r (e ∷ es) ≡ true
      → (stays i r (e ∷ []) ≡ true) × (stays i r es ≡ true)
  stays_apart i r connects es h = (refl, h)
  stays_apart i r runs_task es h = (refl, h)
  stays_apart i r (completes j result element) es h = (refl, h)
  stays_apart i r (subscribes j q) es h = (refl, h)
  stays_apart i r (unsubscribes j q) es h = (ground (arith, h), ground (arith, h))

  run_from-Delivers :
      (i r : ℕ) (es : List (Event E)) (s : Client T)
      → IsOrdered s
      → receives i r s ≡ true
      → stays i r es ≡ true
      → Goes
          (λ s' cs.
            told i r cs ++ queued i s'.tasks
            ≡ queued i s.tasks ++ arrived decode i (is_streaming (s.states i)) es)
          (run decode es s)
  unfolding run
  run_from-Delivers i r [] s h rs keeps = sym (append-nil (queued i s.tasks))
  run_from-Delivers i r (e ∷ es) s h rs keeps =
      let (now, then_on) = stays_apart i r e es keeps in
      Goes-bind _ (step decode e s) (run decode es) (
        Goes-mono
          (λ s' cs (h', d).
            Goes-mono
              (λ s'' cs' eq. ground (
                arith,
                eq,
                d.moved,
                d.later es,
                told-append i r cs cs',
                append_assoc (told i r cs) (told i r cs') (queued i s''.tasks),
                append_assoc (told i r cs) (queued i s'.tasks)
                    (arrived decode i (is_streaming (s'.states i)) es),
                append_assoc (queued i s.tasks)
                    (arrived decode i (is_streaming (s.states i)) (e ∷ []))
                    (arrived decode i (is_streaming (s'.states i)) es),
              ))
              (run decode es s') (run_from-Delivers i r es s' h' d.goes_on then_on))
          (step decode e s)
          (Goes-both _ _ (step decode e s) (step-IsOrdered decode e s h)
            (step-Delivers decode i r e s h rs now)))

  -- A receiver of a stream, after any events from the start of the client, and any further events in
  -- which it does not leave: what it is handed on the stream, followed by what still waits for the
  -- context, is what had waited, followed by the updates that arrived since, up to the first operation
  -- that failed. Each is there once, in this order.
  pub run-delivers :
      (i r : ℕ) (before after : List (Event E)) {s s' : Client T} {cs cs' : List (Call T)}
      → run decode before create ≡ some (s, cs)
      → receives i r s ≡ true
      → stays i r after ≡ true
      → run decode after s ≡ some (s', cs')
      → told i r cs' ++ queued i s'.tasks
        ≡ queued i s.tasks ++ arrived decode i (is_streaming (s.states i)) after
  run-delivers i r before after q rs keeps q' =
      let h = rw q at (run-IsOrdered decode before create create-IsOrdered) in
      rw q' at (run_from-Delivers i r after _ h rs keeps)
