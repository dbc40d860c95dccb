-- ===== src/Session/Compaction/Examples.antt =====
-- Compactions that end, time out and fail late (public/compact-coordinator.js).
use picot.Base.{ℕ, ◌≡◌, refl, true, false, some, [], ◌∷◌, arith, nat_eq, option_eq, text_eq}
use picot.Session.Compaction.{
  idle, requested, Coordinator, on_state, on_timeout, send, set_timer, resolve, request, answered,
  started, fires, new_coordinator, clear_watchdog, set_state, stop, arm_watchdog, enter,
  handle_request, handle_answer, step, run,
}
use picot.Session.Compaction.Watchdog.{run_times_out}

-- A refusal that comes after the compaction has started makes the coordinator idle.
late_refusal : (run 60 new_coordinator (request ∷ started ∷ answered 0 true ∷ [])).0.state ≡ idle
unfolding run step handle_request handle_answer enter set_state arm_watchdog clear_watchdog stop
late_refusal = refl

requested_twice :
    (run 60 new_coordinator (request ∷ request ∷ [])).1
    ≡ on_state requested ∷ set_timer 0 ∷ send 0 ∷ resolve 1 false ∷ []
unfolding run step handle_request handle_answer enter set_state arm_watchdog clear_watchdog stop
requested_twice = refl

abbrev under_way : Coordinator
under_way = (run 60 new_coordinator (request ∷ started ∷ [])).0

run_times_out_example :
    (t : ℕ) × ((under_way.watchdog ≡ some t)
      × (((step 60 under_way (fires t)).0.state ≡ idle)
          × ((step 60 under_way (fires t)).1 ≡ on_state idle ∷ on_timeout ∷ [])))
unfolding run step handle_request enter set_state arm_watchdog clear_watchdog
run_times_out_example = run_times_out 60 (omega arith) (request ∷ started ∷ []) refl
