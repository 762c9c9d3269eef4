-- ===== src/Monitor/Client/Handover.antt =====
-- What one event hands to a receiver, of what had waited or arrives.
use mathlib.Core.List.{append-nil}
use platform_sdk.Base.{
  ℕ, ◌==◌, ◌<◌, ◌&&◌, not, ◌≡◌, Bool, true, false, none, some, List, [], ◌∷◌, ◌++◌, map, arith,
  Option-cases, inl, inr, if◌then◌else◌, refl, All,
}
use platform_sdk.Monitor.FanOut
use platform_sdk.Monitor.FanOut.{member, member-subscribe, member-unsubscribe}
use platform_sdk.Monitor.Service.{State, ready, streaming, finished}
use platform_sdk.Monitor.Service.Streaming.{is_streaming}
use platform_sdk.Monitor.Client.{
  Task, fail, connected, deliver, Call, connect, read, finish, callback_error, callback_stream,
  handle_update, Client, Event, connects, runs_task, completes, subscribes, unsubscribes, set,
  connect_to_updates, subscribe, unsubscribe, write_update, run_task, run_next, proceed_in, proceed,
  step,
}
use platform_sdk.Monitor.Client.Streams.{IsAscending, IsOrdered, Goes}

member_above : (r : ℕ) (rs : List ℕ) → All (λ b. r < b) rs → member r rs ≡ false
member_above r [] h = refl
member_above r (b ∷ bs) (h, hs) = ground (arith, member_above r bs hs)

module _ {T : Type 0} where
  -- The updates of the stream `i` that the receiver `r` is handed.
  abbrev pub told : ℕ → ℕ → List (Call T) → List (List T)
  told i r [] = []
  told i r (handle_update j q u ∷ cs) =
      let rest = told i r cs in if i == j && r == q then u ∷ rest else rest
  told i r (connect j ∷ cs) = told i r cs
  told i r (read j ∷ cs) = told i r cs
  told i r (finish j ∷ cs) = told i r cs
  told i r (callback_error j ∷ cs) = told i r cs
  told i r (callback_stream j ∷ cs) = told i r cs

  -- The updates of the stream `i` that wait for the context.
  abbrev pub queued : ℕ → List (Task T) → List (List T)
  queued i [] = []
  queued i (deliver j u ∷ ts) = let rest = queued i ts in if i == j then u ∷ rest else rest
  queued i (fail j ∷ ts) = queued i ts
  queued i (connected j ∷ ts) = queued i ts

  abbrev pub receives : ℕ → ℕ → Client T → Bool
  receives i r s = elim (s.streams i) [ none ↦ false | some rs ↦ member r rs ]

  pub told-append :
      (i r : ℕ) (cs ds : List (Call T)) → told i r (cs ++ ds) ≡ told i r cs ++ told i r ds
  told-append i r [] ds = refl
  told-append i r (handle_update j q u ∷ cs) ds = ground (arith, told-append i r cs ds)
  told-append i r (connect j ∷ cs) ds = told-append i r cs ds
  told-append i r (read j ∷ cs) ds = told-append i r cs ds
  told-append i r (finish j ∷ cs) ds = told-append i r cs ds
  told-append i r (callback_error j ∷ cs) ds = told-append i r cs ds
  told-append i r (callback_stream j ∷ cs) ds = told-append i r cs ds

  queued-append : (i : ℕ) (ts us : List (Task T)) → queued i (ts ++ us) ≡ queued i ts ++ queued i us
  queued-append i [] us = refl
  queued-append i (deliver j u ∷ ts) us = ground (arith, queued-append i ts us)
  queued-append i (fail j ∷ ts) us = queued-append i ts us
  queued-append i (connected j ∷ ts) us = queued-append i ts us

  told-write_update :
      (i j r : ℕ) (u : List T) (rs : List ℕ)
      → IsAscending rs
      → told i r (write_update j u rs) ≡ (if i == j && member r rs then u ∷ [] else [])
  unfolding write_update
  told-write_update i j r u [] h = ground arith
  told-write_update i j r u (b ∷ bs) (h, hs) =
      ground (arith, told-write_update i j r u bs hs, member_above b bs h)

module _ {E : Type 0} where
  -- Whether the receiver `r` of the stream `i` does not leave.
  abbrev pub stays : ℕ → ℕ → List (Event E) → Bool
  stays i r [] = true
  stays i r (unsubscribes j q ∷ es) = not (i == j && r == q) && stays i r es
  stays i r (connects ∷ es) = stays i r es
  stays i r (runs_task ∷ es) = stays i r es
  stays i r (completes j result element ∷ es) = stays i r es
  stays i r (subscribes j q ∷ es) = stays i r es

module _ {E T : Type 0} (decode : E → T) where
  -- The updates that arrive on the stream `i`, up to the first operation that fails.
  abbrev pub arrived : ℕ → Bool → List (Event E) → List (List T)
  arrived i flows [] = []
  arrived i flows (completes j result element ∷ es) =
      let rest = arrived i flows es in
      if i == j && flows then (if result then map decode element ∷ rest else []) else rest
  arrived i flows (connects ∷ es) = arrived i flows es
  arrived i flows (runs_task ∷ es) = arrived i flows es
  arrived i flows (subscribes j r ∷ es) = arrived i flows es
  arrived i flows (unsubscribes j r ∷ es) = arrived i flows es

  -- One event: who receives goes on to receive, what was handed over is what had waited, and what
  -- arrives later is told by the state.
  pub record Delivers (i r : ℕ) (e : Event E) (s s' : Client T) (cs : List (Call T)) : Type 0 where
    pub goes_on : receives i r s' ≡ true
    pub moved :
        told i r cs ++ queued i s'.tasks
        ≡ queued i s.tasks ++ arrived i (is_streaming (s.states i)) (e ∷ [])
    pub later :
        (es : List (Event E))
        → arrived i (is_streaming (s.states i)) (e ∷ es)
          ≡ arrived i (is_streaming (s.states i)) (e ∷ [])
            ++ arrived i (is_streaming (s'.states i)) es

  arrived-false : (i : ℕ) (es : List (Event E)) → arrived i false es ≡ []
  arrived-false i [] = refl
  arrived-false i (completes j result element ∷ es) = ground (arith, arrived-false i es)
  arrived-false i (connects ∷ es) = arrived-false i es
  arrived-false i (runs_task ∷ es) = arrived-false i es
  arrived-false i (subscribes j r ∷ es) = arrived-false i es
  arrived-false i (unsubscribes j r ∷ es) = arrived-false i es

  proceed_in-Delivers :
      (i r : ℕ) (st : State) (j : ℕ) (result : Bool) (element : List E) (s : Client T)
      → s.states j ≡ some st
      → IsOrdered s
      → receives i r s ≡ true
      → Goes
          (λ s' cs. Delivers i r (completes j result element) s s' cs)
          (some (proceed_in decode st j result element s))
  unfolding proceed_in
  proceed_in-Delivers i r ready j false element s e h rs = record {
    goes_on = rs;
    moved = ground (arith, queued-append i s.tasks (fail j ∷ []));
    later = λ es. ground (arith, arrived-false i es);
  }
  proceed_in-Delivers i r ready j true element s e h rs = record {
    goes_on = ground (arith, h.unconnected j);
    moved = ground (arith, queued-append i s.tasks (connected j ∷ []), h.unconnected j);
    later = λ es. ground (arith, arrived-false i es, h.unconnected j);
  }
  proceed_in-Delivers i r streaming j false element s e h rs = record {
    goes_on = rs;
    moved = ground (arith, append-nil (queued i s.tasks));
    later = λ es. ground (arith, arrived-false i es);
  }
  proceed_in-Delivers i r streaming j true element s e h rs = record {
    goes_on = rs;
    moved = ground (arith, queued-append i s.tasks (deliver j (map decode element) ∷ []));
    later = λ es. ground (arith, arrived-false i es);
  }
  proceed_in-Delivers i r finished j result element s e h rs = record {
    goes_on = rs;
    moved = ground (arith, append-nil (queued i s.tasks));
    later = λ es. ground (arith, arrived-false i es);
  }

  -- The receivers of a stream change, but not whether `r` receives from `i`.
  streams-Delivers :
      (i r j : ℕ) (as' : List ℕ) (e : Event E) (s : Client T)
      → ((es : List (Event E))
          → arrived i (is_streaming (s.states i)) (e ∷ es)
            ≡ arrived i (is_streaming (s.states i)) es)
      → receives i r (record s { streams = set j (some as') s.streams }) ≡ true
      → Delivers i r e s (record s { streams = set j (some as') s.streams }) []
  streams-Delivers i r j as' e s skips stays = record {
    goes_on = stays;
    moved = ground (arith, append-nil (queued i s.tasks), skips []);
    later = λ es. ground (arith, skips es, skips []);
  }

  run_next-Delivers :
      (i r : ℕ) (ts : List (Task T)) (s : Client T)
      → s.tasks ≡ ts
      → IsOrdered s
      → receives i r s ≡ true
      → Goes (λ s' cs. Delivers i r runs_task s s' cs) (run_next ts s)
  unfolding run_next run_task
  run_next-Delivers i r [] s e h rs = record {
    goes_on = rs;
    moved = ground (arith, append-nil (queued i s.tasks));
    later = λ es. refl;
  }
  run_next-Delivers i r (fail j ∷ ts) s e h rs = record {
    goes_on = rs;
    moved = ground (arith, append-nil (queued i ts));
    later = λ es. refl;
  }
  run_next-Delivers i r (connected j ∷ ts) s e h rs = record {
    goes_on = rs;
    moved = ground (arith, append-nil (queued i ts));
    later = λ es. refl;
  }
  run_next-Delivers i r (deliver j u ∷ ts) s e h rs = elim (Option-cases (s.streams j)) [
    | inl q ↦ rw q tt
    | inr (to, q) ↦ rw q record {
      goes_on = rs;
      moved = ground (
        arith,
        append-nil (queued i s.tasks),
        told-write_update i j r u to (rw q at (h.sorted j)),
      );
      later = λ es. refl;
    }
  ]

  pub step-Delivers :
      (i r : ℕ) (e : Event E) (s : Client T)
      → IsOrdered s
      → receives i r s ≡ true
      → stays i r (e ∷ []) ≡ true
      → Goes (λ s' cs. Delivers i r e s s' cs) (step decode e s)
  unfolding step proceed connect_to_updates subscribe unsubscribe
  step-Delivers i r connects s h rs keeps = record {
    goes_on = rs;
    moved = ground (arith, append-nil (queued i s.tasks));
    later = λ es. ground (arith, h.unborn i);
  }
  step-Delivers i r (completes j result element) s h rs keeps = elim (Option-cases (s.states j)) [
    | inl q ↦ rw q tt
    | inr (st, q) ↦ rw q (proceed_in-Delivers i r st j result element s q h rs)
  ]
  step-Delivers i r runs_task s h rs keeps = run_next-Delivers i r s.tasks s refl h rs
  step-Delivers i r (subscribes j q) s h rs keeps = elim (Option-cases (s.streams j)) [
    | inl e ↦ rw e tt
    | inr (to, e) ↦ rw e (
        streams-Delivers i r j (FanOut.subscribe q to) (subscribes j q) s (λ es. refl)
          (ground (arith, member-subscribe r q to)))
  ]
  step-Delivers i r (unsubscribes j q) s h rs keeps = elim (Option-cases (s.streams j)) [
    | inl e ↦ rw e tt
    | inr (to, e) ↦ rw e (
        streams-Delivers i r j (FanOut.unsubscribe q to) (unsubscribes j q) s (λ es. refl)
          (ground (arith, member-unsubscribe r q to)))
  ]
