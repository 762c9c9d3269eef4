-- ===== src/Monitor/Client/Operations.antt =====
-- What one event changes for an invocation: the operations that it asked for, and its answers.
use platform_sdk.Base.{
  ℕ, ◌==◌, ◌+◌, ltb, ◌&&◌, ◌||◌, not, ◌≡◌, Bool, true, false, Option, some, is_some, List, [], ◌∷◌,
  ◌++◌, map, arith, Option-cases, inl, inr, if◌then◌else◌, refl,
}
use platform_sdk.Monitor.Service.{State, ready, streaming, finished}
use platform_sdk.Monitor.Service.Streaming.{is_ready}
use platform_sdk.Monitor.Client.{
  Task, fail, connected, deliver, Call, connect, read, finish, callback_error, callback_stream,
  handle_update, Client, Event, connects, runs_task, completes, subscribes, unsubscribes,
  connect_to_updates, subscribe, unsubscribe, write_update, run_task, run_next, proceed_in, proceed,
  step,
}
use platform_sdk.Monitor.Client.Streams.{IsOrdered, Goes}

abbrev pub one_if : Bool → ℕ
one_if b = if b then 1 else 0

module _ {T : Type 0} where
  -- The operations that an invocation has asked for.
  abbrev pub asked : ℕ → List (Call T) → ℕ
  asked i [] = 0
  asked i (connect j ∷ cs) = one_if (i == j) + asked i cs
  asked i (read j ∷ cs) = one_if (i == j) + asked i cs
  asked i (finish j ∷ cs) = one_if (i == j) + asked i cs
  asked i (callback_error j ∷ cs) = asked i cs
  asked i (callback_stream j ∷ cs) = asked i cs
  asked i (handle_update j q u ∷ cs) = asked i cs

  -- The calls of the callback of an invocation.
  abbrev pub answers : ℕ → List (Call T) → ℕ
  answers i [] = 0
  answers i (callback_error j ∷ cs) = one_if (i == j) + answers i cs
  answers i (callback_stream j ∷ cs) = one_if (i == j) + answers i cs
  answers i (connect j ∷ cs) = answers i cs
  answers i (read j ∷ cs) = answers i cs
  answers i (finish j ∷ cs) = answers i cs
  answers i (handle_update j q u ∷ cs) = answers i cs

  -- Those that wait for the context.
  abbrev pub waiting : ℕ → List (Task T) → ℕ
  waiting i [] = 0
  waiting i (fail j ∷ ts) = one_if (i == j) + waiting i ts
  waiting i (connected j ∷ ts) = one_if (i == j) + waiting i ts
  waiting i (deliver j u ∷ ts) = waiting i ts

  pub asked-append : (i : ℕ) (cs ds : List (Call T)) → asked i (cs ++ ds) ≡ asked i cs + asked i ds
  asked-append i [] ds = omega arith
  asked-append i (connect j ∷ cs) ds = omega (arith, asked-append i cs ds)
  asked-append i (read j ∷ cs) ds = omega (arith, asked-append i cs ds)
  asked-append i (finish j ∷ cs) ds = omega (arith, asked-append i cs ds)
  asked-append i (callback_error j ∷ cs) ds = asked-append i cs ds
  asked-append i (callback_stream j ∷ cs) ds = asked-append i cs ds
  asked-append i (handle_update j q u ∷ cs) ds = asked-append i cs ds

  pub answers-append :
      (i : ℕ) (cs ds : List (Call T)) → answers i (cs ++ ds) ≡ answers i cs + answers i ds
  answers-append i [] ds = omega arith
  answers-append i (connect j ∷ cs) ds = answers-append i cs ds
  answers-append i (read j ∷ cs) ds = answers-append i cs ds
  answers-append i (finish j ∷ cs) ds = answers-append i cs ds
  answers-append i (callback_error j ∷ cs) ds = omega (arith, answers-append i cs ds)
  answers-append i (callback_stream j ∷ cs) ds = omega (arith, answers-append i cs ds)
  answers-append i (handle_update j q u ∷ cs) ds = answers-append i cs ds

  waiting-append :
      (i : ℕ) (ts us : List (Task T)) → waiting i (ts ++ us) ≡ waiting i ts + waiting i us
  waiting-append i [] us = omega arith
  waiting-append i (fail j ∷ ts) us = omega (arith, waiting-append i ts us)
  waiting-append i (connected j ∷ ts) us = omega (arith, waiting-append i ts us)
  waiting-append i (deliver j u ∷ ts) us = waiting-append i ts us

  write_update-asks_nothing :
      (i j : ℕ) (u : List T) (rs : List ℕ)
      → (asked i (write_update j u rs) ≡ 0) × (answers i (write_update j u rs) ≡ 0)
  unfolding write_update
  write_update-asks_nothing i j u [] = (refl, refl)
  write_update-asks_nothing i j u (r ∷ rs) = write_update-asks_nothing i j u rs

  -- Whether an invocation has had its first result.
  abbrev pub begun : ℕ → Client T → Bool
  begun i s = ltb i s.next && not (is_ready (s.states i))

module _ {E : Type 0} where
  -- The operations of an invocation that are done.
  abbrev pub completions : ℕ → List (Event E) → ℕ
  completions i [] = 0
  completions i (completes j result element ∷ es) = one_if (i == j) + completions i es
  completions i (connects ∷ es) = completions i es
  completions i (runs_task ∷ es) = completions i es
  completions i (subscribes j r ∷ es) = completions i es
  completions i (unsubscribes j r ∷ es) = completions i es

module _ {E T : Type 0} (decode : E → T) where
  -- One event, for the invocation `i`.
  pub record Answers (i : ℕ) (e : Event E) (s s' : Client T) (cs : List (Call T)) : Type 0 where
    pub operations :
        asked i cs + one_if (is_some (s.states i))
        ≡ completions i (e ∷ []) + one_if (is_some (s'.states i))
    pub said :
        answers i cs + waiting i s'.tasks + one_if (begun i s)
        ≡ waiting i s.tasks + one_if (begun i s')
    pub first : begun i s' ≡ (begun i s || ltb 0 (completions i (e ∷ [])))

  proceed_in-Answers :
      (i : ℕ) (st : State) (j : ℕ) (result : Bool) (element : List E) (s : Client T)
      → s.states j ≡ some st
      → IsOrdered s
      → Goes
          (λ s' cs. Answers i (completes j result element) s s' cs)
          (some (proceed_in decode st j result element s))
  unfolding proceed_in
  proceed_in-Answers i ready j false element s e h = record {
    operations = ground arith;
    said = ground (arith, waiting-append i s.tasks (fail j ∷ []), h.fresh j);
    first = ground (arith, h.fresh j);
  }
  proceed_in-Answers i ready j true element s e h = record {
    operations = ground arith;
    said = ground (arith, waiting-append i s.tasks (connected j ∷ []), h.fresh j);
    first = ground (arith, h.fresh j);
  }
  proceed_in-Answers i streaming j false element s e h = record {
    operations = ground arith;
    said = ground (arith, h.fresh j);
    first = ground (arith, h.fresh j);
  }
  proceed_in-Answers i streaming j true element s e h = record {
    operations = ground arith;
    said = ground (arith, waiting-append i s.tasks (deliver j (map decode element) ∷ []));
    first = ground (arith, h.fresh j);
  }
  proceed_in-Answers i finished j result element s e h = record {
    operations = ground arith;
    said = ground (arith, h.fresh j);
    first = ground (arith, h.fresh j);
  }

  run_next-Answers :
      (i : ℕ) (ts : List (Task T)) (s : Client T)
      → s.tasks ≡ ts
      → Goes (λ s' cs. Answers i runs_task s s' cs) (run_next ts s)
  unfolding run_next run_task
  run_next-Answers i [] s e = record {
    operations = ground arith;
    said = ground arith;
    first = ground arith;
  }
  run_next-Answers i (fail j ∷ ts) s e = record {
    operations = ground arith;
    said = ground arith;
    first = ground arith;
  }
  run_next-Answers i (connected j ∷ ts) s e = record {
    operations = ground arith;
    said = ground arith;
    first = ground arith;
  }
  run_next-Answers i (deliver j u ∷ ts) s e = elim (Option-cases (s.streams j)) [
    | inl q ↦ rw q tt
    | inr (to, q) ↦
        let (no_asked, no_answer) = write_update-asks_nothing i j u to in
        rw q record {
          operations = omega (arith, no_asked);
          said = ground (arith, no_answer);
          first = ground arith;
        }
  ]

  -- Only the receivers change.
  streams-Answers :
      (i : ℕ) (f : ℕ → Option (List ℕ)) (e : Event E) (s : Client T)
      → completions i (e ∷ []) ≡ 0
      → Answers i e s (record s { streams = f }) []
  streams-Answers i f e s none_done = record {
    operations = omega (arith, none_done);
    said = omega arith;
    first = ground (arith, none_done);
  }

  pub step-Answers :
      (i : ℕ) (e : Event E) (s : Client T)
      → IsOrdered s
      → Goes (λ s' cs. Answers i e s s' cs) (step decode e s)
  unfolding step proceed connect_to_updates subscribe unsubscribe
  step-Answers i connects s h = record {
    operations = ground (arith, h.fresh i);
    said = ground arith;
    first = ground arith;
  }
  step-Answers i (completes j result element) s h = elim (Option-cases (s.states j)) [
    | inl q ↦ rw q tt
    | inr (st, q) ↦ rw q (proceed_in-Answers i st j result element s q h)
  ]
  step-Answers i runs_task s h = run_next-Answers i s.tasks s refl
  step-Answers i (subscribes j r) s h = elim (Option-cases (s.streams j)) [
    | inl e ↦ rw e tt
    | inr (to, e) ↦ rw e (streams-Answers i _ (subscribes j r) s refl)
  ]
  step-Answers i (unsubscribes j r) s h = elim (Option-cases (s.streams j)) [
    | inl e ↦ rw e tt
    | inr (to, e) ↦ rw e (streams-Answers i _ (unsubscribes j r) s refl)
  ]
