-- ===== src/Monitor/Daemon/Refinement.antt =====
-- The daemon keeps its vehicles apart: it does for each system id what a daemon of its own would do.
use platform_sdk.Base.{
  ℕ, String, true, false, ◌==◌, ◌≡◌, ◌≢◌, refl, sym, ap, subst, Option, none, some, ◌>>=◌, List, [],
  ◌∷◌, arith, ◌∙◌,
}
use platform_sdk.Core.Floating.{Floating}
use platform_sdk.Core.Flight.{Credentials}
use platform_sdk.Mavlink.Message.{Mavlink}
use platform_sdk.Mavlink.Vehicle
use platform_sdk.Mavlink.Vehicle.{Vehicle, Callback}
use platform_sdk.Mavlink.Tracker.{TrackerUpdate}
use platform_sdk.Mavlink.Tracker.Frame.{Receives, update-Receives}
use platform_sdk.Monitor.Submitter.Types.{Env, Submitter}
use platform_sdk.Monitor.Submitter.Events.{replies}
use platform_sdk.Monitor.Daemon.{
  Daemon, Input, message, replied, registers, add_all, feed, handle_mavlink_message, handle, run,
  finalize,
}
use platform_sdk.Monitor.Daemon.Solo.{Pair, owner, hear, meet, solo, solo_run}
use platform_sdk.Monitor.Daemon.Delivery.{dispatch-Addressed, feed-Delivers}
use platform_sdk.Monitor.Daemon.Shown.{
  Shows, Refines, at_key, Follows, finalize-Shows, Refines-along, ShowsOthers, at_key-all,
  Delivers-Follows, replied-Follows,
}
use platform_sdk.Monitor.Daemon.Meeting.{Introduces, dispatch-monitors, message-Introduces}

module _ {M D : Type 0} ⦃mav : Mavlink M D⦄ ⦃fl : Floating D⦄ where
  module _ (credentials : Credentials) (aircraft_id : String) where
    heard-Follows :
        (env : Env) (msg : M) (d : Daemon D) (f : ℕ → Pair D) (u : TrackerUpdate D)
        (p : Vehicle D × Submitter D)
        → Shows d f
        → Receives registers msg p.0 d.tracker u
        → Introduces credentials aircraft_id msg d u p
        → Follows
            (mav.sysid msg)
            f
            (feed env u.callbacks (add_all credentials aircraft_id u.added d.submitters) >>= λ b.
              some (record { tracker = u.tracker; submitters = b }))
            (hear env msg p)
    heard-Follows env msg d f u (v, s) h r n =
        let k = mav.sysid msg in
        let v' = (Vehicle.dispatch (mav.msgid msg) msg v).0 in
        let d' : Daemon D = record {
          tracker = u.tracker;
          submitters = add_all credentials aircraft_id u.added d.submitters;
        } in
        let others : ShowsOthers k d' f = record {
          monitors = r.monitors ∙ h.monitors;
          filed = r.filed;
          vehicles = λ j away. r.others j away ∙ h.vehicles j;
          submitters = λ j away. n.others j away ∙ h.submitters j;
          watched = λ j away. h.watched j;
        } in
        rw r.callbacks (
          Delivers-Follows k v' d' f _ _ others r.handled
            (dispatch-monitors (mav.msgid msg) msg v ∙ n.monitors)
            (feed-Delivers env k (Vehicle.dispatch (mav.msgid msg) msg v).1 d'.submitters s
              (dispatch-Addressed k (mav.msgid msg) msg v n.monitors) n.submitter))

    handle-Follows :
        (i : Input M D) (d : Daemon D) (f : ℕ → Pair D)
        → Shows d f
        → Follows
            (owner i)
            f
            (handle credentials aircraft_id i d)
            (solo credentials aircraft_id i (f (owner i)))
    unfolding handle handle_mavlink_message
    handle-Follows (replied env k r) d f h = replied-Follows env k (replies r) d f h
    handle-Follows (message env msg) d f h =
        let (u, q, a, r) = update-Receives registers msg d.tracker h.filed in
        let n = message-Introduces credentials aircraft_id msg d f u h a in
        rw q (
          heard-Follows env msg d f u
            (meet credentials aircraft_id (mav.sysid msg) (f (mav.sysid msg))) h
            (subst (λ v. Receives registers msg v d.tracker u) n.vehicle r) n)

    solo_run-owner :
        (i : Input M D) (inputs : List (Input M D)) (o : Pair D)
        → solo_run credentials aircraft_id (owner i) (i ∷ inputs) o
          ≡ (solo credentials aircraft_id i o >>= solo_run credentials aircraft_id (owner i) inputs)
    solo_run-owner i inputs o = let e : (owner i == owner i) ≡ true = ground arith in rw e refl

    solo_run-other :
        (k : ℕ) (i : Input M D) (inputs : List (Input M D)) (o : Pair D)
        → k ≢ owner i
        → solo_run credentials aircraft_id k (i ∷ inputs) o
          ≡ solo_run credentials aircraft_id k inputs o
    solo_run-other k i inputs o away = let e : (owner i == k) ≡ false = ground arith in rw e refl

    Refines-cons :
        (i : Input M D) (inputs : List (Input M D)) (f : ℕ → Pair D) (o : Option (Daemon D))
        (p : Option (Pair D))
        → p ≡ solo credentials aircraft_id i (f (owner i))
        → Follows (owner i) f o p
        → ((d : Daemon D) (g : ℕ → Pair D)
            → Shows d g
            → Refines
                (run credentials aircraft_id inputs d)
                (λ k. solo_run credentials aircraft_id k inputs (g k)))
        → Refines
            (o >>= run credentials aircraft_id inputs)
            (λ k. solo_run credentials aircraft_id k (i ∷ inputs) (f k))
    Refines-cons i inputs f none none e h next = (
      owner i,
      solo_run-owner i inputs (f (owner i))
          ∙ ap (λ o. o >>= solo_run credentials aircraft_id (owner i) inputs) (sym e),
    )
    Refines-cons i inputs f none (some p) e h next = absurd h
    Refines-cons i inputs f (some d) none e h next = absurd h
    Refines-cons i inputs f (some d) (some p) e h next =
        let agrees =
          at_key-all
            (λ k q.
              solo_run credentials aircraft_id k (i ∷ inputs) (f k)
              ≡ solo_run credentials aircraft_id k inputs q)
            (owner i) p f
            (solo_run-owner i inputs (f (owner i))
              ∙ ap (λ o. o >>= solo_run credentials aircraft_id (owner i) inputs) (sym e))
            (λ k away. solo_run-other k i inputs (f k) away) in
        Refines-along (run credentials aircraft_id inputs d) agrees
          (next d (at_key (owner i) p f) h)

    run-Refines :
        (inputs : List (Input M D)) (d : Daemon D) (f : ℕ → Pair D)
        → Shows d f
        → Refines
            (run credentials aircraft_id inputs d)
            (λ k. solo_run credentials aircraft_id k inputs (f k))
    unfolding run
    run-Refines [] d f h = (f, λ k. refl, h)
    run-Refines (i ∷ inputs) d f h =
        Refines-cons i inputs f (handle credentials aircraft_id i d) _ refl (handle-Follows i d f h)
          (run-Refines inputs)

    -- From the daemon as it is made, any inputs are handled without a failed assertion or undefined
    -- behaviour exactly when, for every system id, the inputs of that id alone are handled so by a
    -- single vehicle with a single submitter; the daemon then holds for each id the vehicle and the
    -- submitter that the single ones come to, and nothing for an id that was not heard.
    pub finalize-run-Refines :
        (inputs : List (Input M D))
        → Refines
            (run credentials aircraft_id inputs finalize)
            (λ k. solo_run credentials aircraft_id k inputs none)
    finalize-run-Refines inputs = run-Refines inputs finalize (λ k. none) finalize-Shows
