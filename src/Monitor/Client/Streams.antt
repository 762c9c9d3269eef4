-- ===== src/Monitor/Client/Streams.antt =====
-- What the states of the invocations say of the streams.
use platform_sdk.Base.{
  ℕ, ◌≤◌, ◌<◌, ◌≡◌, Bool, true, false, Option, none, some, ◌>>=◌, List, [], ◌∷◌, ◌++◌, arith,
  Option-cases, inl, inr, refl, All,
}
use platform_sdk.Monitor.FanOut
use platform_sdk.Monitor.FanOut.{member, member-subscribe, member-unsubscribe}
use platform_sdk.Monitor.Service.{State, ready, streaming, finished}
use platform_sdk.Monitor.Service.Streaming.{is_ready}
use platform_sdk.Monitor.Client.{
  Task, Call, Client, Event, connects, runs_task, completes, subscribes, unsubscribes, set, create,
  connect_to_updates, subscribe, unsubscribe, run_task, run_next, proceed_in, proceed, step, run,
}

-- The addresses of a set, from the lowest to the highest.
abbrev pub IsAscending : List ℕ → Type 0
IsAscending [] = Unit
IsAscending (a ∷ rest) = All (λ b. a < b) rest × IsAscending rest

All-subscribe :
    (a r : ℕ) (rs : List ℕ) → a < r → All (λ b. a < b) rs → All (λ b. a < b) (FanOut.subscribe r rs)
unfolding FanOut.subscribe
All-subscribe a r [] lt h = (lt, tt)
All-subscribe a r (b ∷ bs) lt (h, hs) = ground (arith, All-subscribe a r bs lt hs)

All-below : (a b : ℕ) (rs : List ℕ) → a < b → All (λ c. b < c) rs → All (λ c. a < c) rs
All-below a b [] lt h = tt
All-below a b (c ∷ cs) lt (h, hs) = (omega (arith, lt, h), All-below a b cs lt hs)

subscribe-IsAscending : (r : ℕ) (rs : List ℕ) → IsAscending rs → IsAscending (FanOut.subscribe r rs)
unfolding FanOut.subscribe
subscribe-IsAscending r [] h = (tt, tt)
subscribe-IsAscending r (b ∷ bs) (h, hs) =
    ground (arith, All-subscribe b r bs, All-below r b bs, subscribe-IsAscending r bs hs)

All-unsubscribe :
    (a r : ℕ) (rs : List ℕ) → All (λ b. a < b) rs → All (λ b. a < b) (FanOut.unsubscribe r rs)
unfolding FanOut.unsubscribe
All-unsubscribe a r [] h = tt
All-unsubscribe a r (b ∷ bs) (h, hs) = ground (arith, All-unsubscribe a r bs hs)

unsubscribe-IsAscending :
    (r : ℕ) (rs : List ℕ) → IsAscending rs → IsAscending (FanOut.unsubscribe r rs)
unfolding FanOut.unsubscribe
unsubscribe-IsAscending r [] h = tt
unsubscribe-IsAscending r (b ∷ bs) (h, hs) =
    ground (arith, All-unsubscribe b r bs h, unsubscribe-IsAscending r bs hs)

abbrev pub Sorted : Option (List ℕ) → Type 0
Sorted none = Unit
Sorted (some rs) = IsAscending rs

module _ {T : Type 0} where
  -- An invocation that was not created, or is not connected, has no stream.
  pub record IsOrdered (s : Client T) : Type 0 where
    pub fresh : (k : ℕ) → s.next ≤ k → s.states k ≡ none
    pub unborn : (k : ℕ) → s.next ≤ k → s.streams k ≡ none
    pub unconnected : (k : ℕ) → is_ready (s.states k) ≡ true → s.streams k ≡ none
    pub sorted : (k : ℕ) → Sorted (s.streams k)

  -- A property of the client and of the calls, where the code goes on.
  abbrev pub Goes : (Client T → List (Call T) → Type 0) → Option (Client T × List (Call T)) → Type 0
  Goes P none = Unit
  Goes P (some (s, cs)) = P s cs

  pub Goes-mono :
      {P Q : Client T → List (Call T) → Type 0}
      → ((s : Client T) (cs : List (Call T)) → P s cs → Q s cs)
      → (o : Option (Client T × List (Call T))) → Goes P o
      → Goes Q o
  Goes-mono f none h = tt
  Goes-mono f (some (s, cs)) h = f s cs h

  pub Goes-both :
      (P Q : Client T → List (Call T) → Type 0) (o : Option (Client T × List (Call T)))
      → Goes P o
      → Goes Q o
      → Goes (λ s cs. P s cs × Q s cs) o
  Goes-both P Q none p q = tt
  Goes-both P Q (some (s, cs)) p q = (p, q)

  Goes-append :
      (P : Client T → List (Call T) → Type 0) (cs : List (Call T))
      (o : Option (Client T × List (Call T)))
      → Goes (λ s' cs'. P s' (cs ++ cs')) o
      → Goes P (o >>= (λ (s', cs'). some (s', cs ++ cs')))
  Goes-append P cs none h = tt
  Goes-append P cs (some (s', cs')) h = h

  -- Two parts of a run.
  pub Goes-bind :
      (P : Client T → List (Call T) → Type 0) (o : Option (Client T × List (Call T)))
      (k : Client T → Option (Client T × List (Call T)))
      → Goes (λ s cs. Goes (λ s' cs'. P s' (cs ++ cs')) (k s)) o
      → Goes P (do (s, cs) ← o; (s', cs') ← k s; some (s', cs ++ cs'))
  Goes-bind P none k h = tt
  Goes-bind P (some (s, cs)) k h = Goes-append P cs (k s) h

  pub create-IsOrdered : IsOrdered create
  unfolding create
  create-IsOrdered = record {
    fresh = λ k h. refl;
    unborn = λ k h. refl;
    unconnected = λ k h. refl;
    sorted = λ k. tt;
  }

  run_next-IsOrdered :
      (ts : List (Task T)) (s : Client T)
      → IsOrdered s
      → Goes (λ s' cs. IsOrdered s') (run_next ts s)
  unfolding run_next
  run_next-IsOrdered [] s h = h
  run_next-IsOrdered (t ∷ ts) s h = elim (Option-cases (run_task t s)) [
    | inl q ↦ rw q tt
    | inr (cs, q) ↦ rw q record {
      fresh = h.fresh;
      unborn = h.unborn;
      unconnected = h.unconnected;
      sorted = h.sorted;
    }
  ]

module _ {E T : Type 0} (decode : E → T) where
  proceed_in-IsOrdered :
      (st : State) (i : ℕ) (result : Bool) (element : List E) (s : Client T)
      → s.states i ≡ some st
      → IsOrdered s
      → Goes (λ s' cs. IsOrdered s') (some (proceed_in decode st i result element s))
  unfolding proceed_in
  proceed_in-IsOrdered ready i false element s e h = record {
    fresh = λ k le. ground (arith, h.fresh k le);
    unborn = h.unborn;
    unconnected = λ k q. ground (arith, h.unconnected k);
    sorted = h.sorted;
  }
  proceed_in-IsOrdered ready i true element s e h = record {
    fresh = λ k le. ground (arith, h.fresh k le);
    unborn = λ k le. ground (arith, h.fresh k le, h.unborn k le);
    unconnected = λ k q. ground (arith, h.unconnected k);
    sorted = λ k. ground (arith, h.sorted k);
  }
  proceed_in-IsOrdered streaming i false element s e h = record {
    fresh = λ k le. ground (arith, h.fresh k le);
    unborn = h.unborn;
    unconnected = λ k q. ground (arith, h.unconnected k);
    sorted = h.sorted;
  }
  proceed_in-IsOrdered streaming i true element s e h = record {
    fresh = h.fresh;
    unborn = h.unborn;
    unconnected = h.unconnected;
    sorted = h.sorted;
  }
  proceed_in-IsOrdered finished i result element s e h = record {
    fresh = λ k le. ground (arith, h.fresh k le);
    unborn = h.unborn;
    unconnected = λ k q. ground (arith, h.unconnected k);
    sorted = h.sorted;
  }

  -- The receivers of one stream change.
  streams-IsOrdered :
      (i : ℕ) (rs rs' : List ℕ) (s : Client T)
      → s.streams i ≡ some rs
      → IsAscending rs'
      → IsOrdered s
      → IsOrdered (record s { streams = set i (some rs') s.streams })
  streams-IsOrdered i rs rs' s e up h = record {
    fresh = h.fresh;
    unborn = λ k le. ground (arith, h.unborn k le);
    unconnected = λ k q. ground (arith, h.unconnected k q);
    sorted = λ k. ground (arith, h.sorted k);
  }

  pub step-IsOrdered :
      (e : Event E) (s : Client T) → IsOrdered s → Goes (λ s' cs. IsOrdered s') (step decode e s)
  unfolding step proceed connect_to_updates run_next subscribe unsubscribe
  step-IsOrdered connects s h = record {
    fresh = λ k le. ground (arith, h.fresh k);
    unborn = λ k le. h.unborn k (omega (arith, le));
    unconnected = λ k q. ground (arith, h.unconnected k, h.unborn k);
    sorted = h.sorted;
  }
  step-IsOrdered (completes i result element) s h = elim (Option-cases (s.states i)) [
    | inl q ↦ rw q tt
    | inr (st, q) ↦ rw q (proceed_in-IsOrdered st i result element s q h)
  ]
  step-IsOrdered runs_task s h = run_next-IsOrdered s.tasks s h
  step-IsOrdered (subscribes i r) s h = elim (Option-cases (s.streams i)) [
    | inl q ↦ rw q tt
    | inr (rs, q) ↦ rw q (
        streams-IsOrdered i rs (FanOut.subscribe r rs) s q
          (subscribe-IsAscending r rs (rw q at (h.sorted i))) h)
  ]
  step-IsOrdered (unsubscribes i r) s h = elim (Option-cases (s.streams i)) [
    | inl q ↦ rw q tt
    | inr (rs, q) ↦ rw q (
        streams-IsOrdered i rs (FanOut.unsubscribe r rs) s q
          (unsubscribe-IsAscending r rs (rw q at (h.sorted i))) h)
  ]

  pub run-IsOrdered :
      (es : List (Event E)) (s : Client T)
      → IsOrdered s
      → Goes (λ s' cs. IsOrdered s') (run decode es s)
  unfolding run
  run-IsOrdered [] s h = h
  run-IsOrdered (e ∷ es) s h =
      Goes-bind (λ s' cs. IsOrdered s') (step decode e s) (run decode es)
        (Goes-mono (λ s' cs h'. run-IsOrdered es s' h') (step decode e s) (step-IsOrdered e s h))
