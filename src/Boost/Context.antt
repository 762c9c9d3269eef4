-- ===== src/Boost/Context.antt =====
-- src/airmap/boost/context.cpp: the state of a context, with `run` and `stop`. An `io_service` runs
-- its handlers until it is stopped.
use platform_sdk.Base.{
  Bool, true, false, ◌≡◌, refl, Option-cases, inl, inr, Option, none, some, ◌>>=◌, List, [], ◌∷◌,
  if◌then◌else◌, arith,
}

pub data State : Type 0 where
  stopped running stopping : State

pub data ReturnCode : Type 0 where
  success error already_running : ReturnCode

-- `io_stopped` is `io_service_->stopped()`.
pub record Context : Type 0 where
  pub state : State
  pub return_code : ReturnCode
  pub io_stopped : Bool

unfoldable pub create : Context
create = record { state = stopped; return_code = success; io_stopped = false }

unfoldable pub stop : ReturnCode → Context → Context
stop rc c = elim c.state [
  | running ↦ record { state = stopping; return_code = rc; io_stopped = true }
  | _ ↦ c
]

-- A handler by the calls of `stop` that it makes. An exception of a handler is caught, and the loop
-- goes on, so it does not matter how the handler ends.
abbrev pub Handler : Type 0
Handler = List ReturnCode

unfoldable pub handle : Handler → Context → Context
handle [] c = c
handle (rc ∷ rcs) c = handle rcs (stop rc c)

-- The loop of `run`; `none` means that it waits for further handlers.
unfoldable pub serve : List Handler → Context → Option Context
serve [] c = if c.io_stopped then some c else none
serve (h ∷ hs) c = let rest = serve hs (handle h c) in if c.io_stopped then some c else rest

unfoldable pub run : List Handler → Context → Option (Context × ReturnCode)
run hs c = elim c.state [
  | stopped ↦ do
    c' ← serve hs (record c { state = running; return_code = success })
    some (record c' { state = stopped }, c'.return_code)
  | _ ↦ some (c, already_running)
]

-- The first call of `stop` that the handlers make.
abbrev pub first_stop : List Handler → Option ReturnCode
first_stop [] = none
first_stop ([] ∷ hs) = first_stop hs
first_stop ((rc ∷ rcs) ∷ hs) = some rc

handle_stopping : (rcs : Handler) (c : Context) → c.state ≡ stopping → handle rcs c ≡ c
unfolding handle stop
handle_stopping [] c h = refl
handle_stopping (rc ∷ rcs) c h = ground (arith, handle_stopping rcs c)

serve-stopped : (hs : List Handler) (c : Context) → c.io_stopped ≡ true → serve hs c ≡ some c
unfolding serve
serve-stopped [] c h = rw h
serve-stopped (rcs ∷ hs) c h = rw h

abbrev at_end : Option ReturnCode → Option Context
at_end none = none
at_end (some rc) = some (record { state = stopping; return_code = rc; io_stopped = true })

serve_lem :
    (hs : List Handler) (c : Context)
    → c.state ≡ running
    → c.io_stopped ≡ false
    → serve hs c ≡ at_end (first_stop hs)
unfolding serve handle stop
serve_lem [] c h e = rw e
serve_lem ([] ∷ hs) c h e = ground (arith, serve_lem hs c h e)
serve_lem ((rc ∷ rcs) ∷ hs) c h e =
    let c' : Context = record { state = stopping; return_code = rc; io_stopped = true } in
    ground (arith, handle_stopping rcs c', serve-stopped hs c')

-- The context waits if nothing stops it; otherwise its first run returns the code, and a run after
-- that leaves it as it is and returns success.
abbrev pub Runs : List Handler → List Handler → Context → Option ReturnCode → Type 0
Runs hs later c none = run hs c ≡ none
Runs hs later c (some rc) =
    (c' : Context) × (run hs c ≡ some (c', rc))
    × (run later c' ≡ some (record c' { return_code = success }, success))

ended : ReturnCode → Context
ended rc = record { state = stopped; return_code = rc; io_stopped = true }

run-ended :
    (rc : ReturnCode) (later : List Handler) → run later (ended rc) ≡ some (ended success, success)
unfolding run ended
run-ended rc later = ground (
  arith,
  serve-stopped later (record { state = running; return_code = success; io_stopped = true }),
)

run_stopped :
    (hs : List Handler) (c : Context) (o : Option ReturnCode)
    → first_stop hs ≡ o
    → c.state ≡ stopped
    → c.io_stopped ≡ false
    → run hs c ≡ elim o [ none ↦ none | some rc ↦ some (ended rc, rc) ]
unfolding run ended
run_stopped hs c o f h e =
    ground (arith, serve_lem hs (record c { state = running; return_code = success }))

-- A context that is not running and was never stopped: a run returns if a handler stops the context,
-- and then with the code of the first stop, whatever the handlers do afterwards. It is over then: each
-- further run handles nothing and returns success at once, also where the first returned an error.
pub run-Runs :
    (hs later : List Handler) (c : Context)
    → c.state ≡ stopped
    → c.io_stopped ≡ false
    → Runs hs later c (first_stop hs)
unfolding ended
run-Runs hs later c h e = elim (Option-cases (first_stop hs)) [
  | inl waits ↦ rw waits (run_stopped hs c none waits h e)
  | inr (rc, stops) ↦ rw stops (ended rc, run_stopped hs c (some rc) stops h e, run-ended rc later)
]
