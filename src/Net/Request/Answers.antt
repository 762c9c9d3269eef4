-- ===== src/Net/Request/Answers.antt =====
-- A request answers once.
use platform_sdk.Base.{
  ℕ, zero, suc, ◌≤◌, ◌≡◌, refl, Bool, true, false, none, some, ◌⊎◌, inl, inr, List, [], ◌∷◌, length,
  arith, if◌then◌else◌,
}
use platform_sdk.Core.Error.{Error}
use platform_sdk.Core.Outcome.{Outcome, value, error}
use platform_sdk.Net.Request.{
  Message, Response, Operation, resolve, connect, handshake, write, read, Request, Completion,
  wrap_error_code, begin, call, start, continue, handle_resolve, handle_connect,
  handle_ssl_handshake, handle_write, response, handle_read, handle, complete, run,
}

-- The operations of a request, for its class.
abbrev pub operations : Bool → ℕ
operations encrypting = if encrypting then 5 else 4

-- How many are left.
left : Bool → Operation → ℕ
left encrypting resolve = operations encrypting
left true connect = 4
left false connect = 3
left encrypting handshake = 3
left encrypting write = 2
left encrypting read = 1

left-positive : (e : Bool) (op : Operation) → 1 ≤ left e op
unfolding left
left-positive e op = ground arith

left-read : (n : ℕ) (e : Bool) (op : Operation) → op ≡ read → left e op ≡ suc n → n ≡ 0
unfolding left
left-read n e op last count =
    let one : left e op ≡ 1 = rw last (ground arith) in omega (arith, one, count)

module _ {D : Type 0} (m : Message) where
  -- The first error among `n` operations, or else the response.
  abbrev pub verdict : ℕ → List Completion → Outcome Response (Error D)
  verdict zero ecs = value (response m)
  verdict (suc n) [] = value (response m)
  verdict (suc n) (some ec ∷ ecs) = error (wrap_error_code ec)
  verdict (suc n) (none ∷ ecs) = verdict n ecs

  finished-run :
      (e : Bool) (results : List (Outcome Response (Error D))) (ecs : List Completion)
      → run m ecs (record { encrypting = e; pending = none; results = results })
        ≡ record { encrypting = e; pending = none; results = results }
  unfolding run complete
  finished-run e results [] = refl
  finished-run e results (ec ∷ ecs) = finished-run e results ecs

  -- After any other operation than the last comes `next`, if it succeeds.
  advance :
      (e : Bool) (op : Operation)
      → (op ≡ read)
        ⊎ ((next : Operation) × (left e op ≡ suc (left e next))
            × ((ec : Completion) (r : Request D)
                → r.encrypting ≡ e
                → handle m op ec r ≡ continue next ec r))
  unfolding handle handle_resolve handle_connect handle_ssl_handshake handle_write left
  advance true resolve = inr (connect, refl, λ ec r h. refl)
  advance false resolve = inr (connect, refl, λ ec r h. refl)
  advance true connect = inr (handshake, refl, λ ec r h. rw h refl)
  advance false connect = inr (write, refl, λ ec r h. rw h refl)
  advance true handshake = inr (write, refl, λ ec r h. refl)
  advance false handshake = inr (write, refl, λ ec r h. refl)
  advance true write = inr (read, refl, λ ec r h. refl)
  advance false write = inr (read, refl, λ ec r h. refl)
  advance e read = inl refl

  read-run :
      (e : Bool) (ec : Completion) (ecs : List Completion)
      → run m ecs (handle m read ec (record { encrypting = e; pending = none; results = [] }))
        ≡ record { encrypting = e; pending = none; results = verdict 1 (ec ∷ ecs) ∷ [] }
  unfolding handle handle_read call
  read-run e (some ec) ecs = finished-run e (error (wrap_error_code ec) ∷ []) ecs
  read-run e none ecs = finished-run e (value (response m) ∷ []) ecs

  -- A request that waits for the last `n` operations.
  waiting-run :
      (n : ℕ) (e : Bool) (op : Operation) (ecs : List Completion)
      → left e op ≡ n
      → n ≤ length ecs
      → run m ecs (record { encrypting = e; pending = some op; results = [] })
        ≡ record { encrypting = e; pending = none; results = verdict n ecs ∷ [] }
  unfolding run complete continue call start
  waiting-run zero e op ecs count enough = let some_left = left-positive e op in ground arith
  waiting-run (suc n) e op [] count enough = ground arith
  waiting-run (suc n) e op (some ec ∷ ecs) count enough = elim (advance e op) [
    | inl last ↦ rw last (read-run e (some ec) ecs)
    | inr (next, fewer, goes) ↦
        rw (goes (some ec) (record { encrypting = e; pending = none; results = [] }) refl)
          (finished-run e (error (wrap_error_code ec) ∷ []) ecs)
  ]
  waiting-run (suc n) e op (none ∷ ecs) count enough = elim (advance e op) [
    | inl last ↦
        let one : n ≡ 0 = left-read n e op last count in rw (last, one) (read-run e none ecs)
    | inr (next, fewer, goes) ↦
        rw (goes none (record { encrypting = e; pending = none; results = [] }) refl)
          (waiting-run n e next ecs (omega (arith, fewer, count)) (omega arith))
  ]

  -- A request ends, and calls its callback exactly once, as soon as as many operations have ended
  -- as its class has: four, with the resolving of the name, or five with a handshake. It is called
  -- with the error of the first operation that failed, or else with the response, and whatever ends
  -- later changes nothing.
  pub run-begin :
      (encrypting : Bool) (ecs : List Completion)
      → operations encrypting ≤ length ecs
      → run m ecs (begin encrypting) ≡ record {
        encrypting = encrypting;
        pending = none;
        results = verdict (operations encrypting) ecs ∷ [];
      }
  unfolding begin left
  run-begin encrypting ecs enough =
      waiting-run (operations encrypting) encrypting resolve ecs refl enough
