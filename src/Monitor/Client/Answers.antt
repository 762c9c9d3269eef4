-- ===== src/Monitor/Client/Answers.antt =====
-- What the gRPC library and the callback of an invocation can rely on.
use platform_sdk.Base.{
  ℕ, suc, ◌+◌, ◌≤◌, ltb, ◌||◌, ◌≡◌, Bool, true, false, Option, some, is_some, List, [], ◌∷◌, map,
  arith, Option-cases, inl, inr, refl, All, All-append_one,
}
use platform_sdk.Monitor.FanOut
use platform_sdk.Monitor.Service.{State, ready, streaming, finished}
use platform_sdk.Monitor.Service.Streaming.{is_streaming}
use platform_sdk.Monitor.Client.{
  Task, fail, connected, deliver, Call, Client, Event, connects, runs_task, completes, subscribes,
  unsubscribes, set, create, connect_to_updates, subscribe, unsubscribe, run_task, run_next,
  proceed_in, proceed, step, run,
}
use platform_sdk.Monitor.Client.Streams.{
  IsOrdered, Goes, create-IsOrdered, step-IsOrdered, Goes-mono, Goes-both, Goes-bind,
}
use platform_sdk.Monitor.Client.Operations.{
  one_if, asked, answers, waiting, begun, completions, asked-append, answers-append, step-Answers,
}

module _ {T : Type 0} where
  -- The stream of a delivery that waits is there.
  abbrev HasStream : (ℕ → Option (List ℕ)) → Task T → Type 0
  HasStream streams (fail j) = Unit
  HasStream streams (connected j) = Unit
  HasStream streams (deliver j u) = is_some (streams j) ≡ true

  All-HasStream :
      (f g : ℕ → Option (List ℕ)) (ts : List (Task T))
      → ((k : ℕ) → is_some (f k) ≡ true → is_some (g k) ≡ true)
      → All (HasStream f) ts
      → All (HasStream g) ts
  All-HasStream f g [] more h = tt
  All-HasStream f g (fail j ∷ ts) more (h, hs) = (tt, All-HasStream f g ts more hs)
  All-HasStream f g (connected j ∷ ts) more (h, hs) = (tt, All-HasStream f g ts more hs)
  All-HasStream f g (deliver j u ∷ ts) more (h, hs) = (more j h, All-HasStream f g ts more hs)

  -- What can be delivered: those that stream have a stream.
  record IsSupplied (s : Client T) : Type 0 where
    supplied : All (HasStream s.streams) s.tasks
    streams : (k : ℕ) → is_streaming (s.states k) ≡ true → is_some (s.streams k) ≡ true

module _ {E T : Type 0} (decode : E → T) where
  proceed_in-IsSupplied :
      (st : State) (j : ℕ) (result : Bool) (element : List E) (s : Client T)
      → s.states j ≡ some st
      → IsSupplied s
      → Goes (λ s' cs. IsSupplied s') (some (proceed_in decode st j result element s))
  unfolding proceed_in
  proceed_in-IsSupplied ready j false element s e h = record {
    supplied = All-append_one (HasStream s.streams) s.tasks (fail j) h.supplied tt;
    streams = λ k. ground (arith, h.streams k);
  }
  proceed_in-IsSupplied ready j true element s e h =
      let streams' = set j (some []) s.streams in
      record {
        supplied =
            All-append_one (HasStream streams') s.tasks (connected j)
              (All-HasStream s.streams streams' s.tasks (λ k there. ground arith) h.supplied) tt;
        streams = λ k. ground (arith, h.streams k);
      }
  proceed_in-IsSupplied streaming j false element s e h = record {
    supplied = h.supplied;
    streams = λ k. ground (arith, h.streams k);
  }
  proceed_in-IsSupplied streaming j true element s e h = record {
    supplied =
        All-append_one (HasStream s.streams) s.tasks (deliver j (map decode element)) h.supplied
          (h.streams j (rw e refl));
    streams = h.streams;
  }
  proceed_in-IsSupplied finished j result element s e h = record {
    supplied = h.supplied;
    streams = λ k. ground (arith, h.streams k);
  }

  run_next-IsSupplied :
      (s : Client T) (ts : List (Task T))
      → s.tasks ≡ ts
      → All (HasStream s.streams) ts
      → IsSupplied s
      → (is_some (run_next ts s) ≡ true) × Goes (λ s' cs. IsSupplied s') (run_next ts s)
  unfolding run_next run_task
  run_next-IsSupplied s [] e hs h = (refl, h)
  run_next-IsSupplied s (fail j ∷ ts) e (h', hs) h =
      (refl, record { supplied = hs; streams = h.streams })
  run_next-IsSupplied s (connected j ∷ ts) e (h', hs) h =
      (refl, record { supplied = hs; streams = h.streams })
  run_next-IsSupplied s (deliver j u ∷ ts) e (h', hs) h = elim (Option-cases (s.streams j)) [
    | inl q ↦ ground arith
    | inr (to, q) ↦ rw q (refl, record { supplied = hs; streams = h.streams })
  ]

  streams-IsSupplied :
      (j : ℕ) (rs : List ℕ) (s : Client T)
      → IsSupplied s
      → IsSupplied (record s { streams = set j (some rs) s.streams })
  streams-IsSupplied j rs s h =
      let streams' = set j (some rs) s.streams in
      record {
        supplied = All-HasStream s.streams streams' s.tasks (λ k there. ground arith) h.supplied;
        streams = λ k. ground (arith, h.streams k);
      }

  step-IsSupplied :
      (e : Event E) (s : Client T) → IsSupplied s → Goes (λ s' cs. IsSupplied s') (step decode e s)
  unfolding step proceed connect_to_updates subscribe unsubscribe
  step-IsSupplied connects s h = record {
    supplied = h.supplied;
    streams = λ k. ground (arith, h.streams k);
  }
  step-IsSupplied (completes j result element) s h = elim (Option-cases (s.states j)) [
    | inl q ↦ rw q tt
    | inr (st, q) ↦ rw q (proceed_in-IsSupplied st j result element s q h)
  ]
  step-IsSupplied runs_task s h = (run_next-IsSupplied s s.tasks refl h.supplied h).1
  step-IsSupplied (subscribes j r) s h = elim (Option-cases (s.streams j)) [
    | inl e ↦ rw e tt
    | inr (to, e) ↦ rw e (streams-IsSupplied j (FanOut.subscribe r to) s h)
  ]
  step-IsSupplied (unsubscribes j r) s h = elim (Option-cases (s.streams j)) [
    | inl e ↦ rw e tt
    | inr (to, e) ↦ rw e (streams-IsSupplied j (FanOut.unsubscribe r to) s h)
  ]

  -- A run, for the invocation `i`.
  record Kept (i : ℕ) (es : List (Event E)) (s s' : Client T) (cs : List (Call T)) : Type 0 where
    operations :
        asked i cs + one_if (is_some (s.states i))
        ≡ completions i es + one_if (is_some (s'.states i))
    said :
        answers i cs + waiting i s'.tasks + one_if (begun i s)
        ≡ waiting i s.tasks + one_if (begun i s')
    first : begun i s' ≡ (begun i s || ltb 0 (completions i es))
    supplies : IsSupplied s'

  completions-cons :
      (i : ℕ) (e : Event E) (es : List (Event E))
      → completions i (e ∷ es) ≡ completions i (e ∷ []) + completions i es
  completions-cons i connects es = omega arith
  completions-cons i runs_task es = omega arith
  completions-cons i (completes j result element) es = omega arith
  completions-cons i (subscribes j r) es = omega arith
  completions-cons i (unsubscribes j r) es = omega arith

  run-Kept :
      (i : ℕ) (es : List (Event E)) (s : Client T)
      → IsOrdered s
      → IsSupplied s
      → Goes (λ s' cs. Kept i es s s' cs) (run decode es s)
  unfolding run
  run-Kept i [] s h hs = record {
    operations = omega arith;
    said = omega arith;
    first = ground arith;
    supplies = hs;
  }
  run-Kept i (e ∷ es) s h hs =
      Goes-bind (λ s' cs. Kept i (e ∷ es) s s' cs) (step decode e s) (run decode es)
        (Goes-mono
          (λ s' cs ((h', hs'), now).
            Goes-mono
              (λ s'' cs' then_on. record {
                operations = omega (
                  arith,
                  asked-append i cs cs',
                  completions-cons i e es,
                  now.operations,
                  then_on.operations,
                );
                said = omega (arith, answers-append i cs cs', now.said, then_on.said);
                first = ground (arith, completions-cons i e es, now.first, then_on.first);
                supplies = then_on.supplies;
              })
              (run decode es s') (run-Kept i es s' h' hs'))
          (step decode e s)
          (Goes-both _ _ (step decode e s)
            (Goes-both _ _ (step decode e s) (step-IsOrdered decode e s h) (step-IsSupplied e s hs))
            (step-Answers decode i e s h)))

  -- After any events from the start of the client, for an invocation: an operation can be handed to it
  -- exactly if one that it asked for is not done yet, and that is never more than one. Its callback was
  -- called, or waits for the context, once if any operation of it is done, and not at all before. The
  -- next task of the context can run.
  pub run-answers :
      (es : List (Event E)) (i : ℕ) (result : Bool) (element : List E) {s : Client T}
      {cs : List (Call T)}
      → run decode es create ≡ some (s, cs)
      → (is_some (step decode (completes i result element) s) ≡ ltb (completions i es) (asked i cs))
        × (asked i cs ≤ suc (completions i es))
        × (answers i cs + waiting i s.tasks ≡ one_if (ltb 0 (completions i es)))
        × (is_some (step decode runs_task s) ≡ true)
  unfolding create step proceed
  run-answers es i result element {s = s} q =
      let k = rw q at (
        run-Kept i es create create-IsOrdered
          (record { supplied = tt; streams = λ k. ground arith })) in
      let (runs, _) = run_next-IsSupplied s s.tasks refl k.supplies.supplied k.supplies in
      (
        ground (arith, k.operations),
        ground (arith, k.operations),
        ground (arith, k.said, k.first),
        runs,
      )
