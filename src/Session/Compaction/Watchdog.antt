-- ===== src/Session/Compaction/Watchdog.antt =====
-- A compaction that is asked for or runs is watched (public/compact-coordinator.js).
use picot.Base.{
  ℕ, suc, ◌≤◌, ◌≡◌, refl, ap, ◌∙◌, Bool, true, false, not, Option, none, some, List, [], ◌∷◌, ◌++◌,
  arith, ltb, nat_beq, if◌then◌else◌, ◌==◌, nat_eq, ==_refl, if-both, if-cases, option_elim,
  option_eq, text_eq, keep, any, is_some,
}
use picot.Session.Compaction.{
  Phase, idle, requested, running, Coordinator, Effect, on_state, on_timeout, send, clear_timer,
  resolve, Event, request, answered, started, ended, reset, fires, new_coordinator, is_idle, busy,
  clear_watchdog, set_state, stop, arm_watchdog, enter, handle_request, handle_answer, handle_timer,
  step, run,
}

-- A timer is set exactly while the coordinator is busy.
unfoldable pub IsWatched : Coordinator → Type 0
IsWatched c = is_some c.watchdog ≡ busy c

stop-IsWatched : (c : Coordinator) → IsWatched (stop c).0 × ((stop c).0.state ≡ idle)
unfolding stop clear_watchdog set_state IsWatched
stop-IsWatched c =
    option_elim {B = Coordinator × List Effect}
      (λ (r : Coordinator × List Effect).
        (is_some (record (r.0) { state = idle }).watchdog ≡ false) × (idle ≡ idle))
      c.watchdog (c, []) (λ t. (record c { watchdog = none }, clear_timer t ∷ []))
      (λ e. (ap is_some e, refl)) (λ t e. (refl, refl))

module _ (timeout_ms : ℕ) (on : 1 ≤ timeout_ms) where
  enter-IsWatched :
      (next : Phase) (c : Coordinator)
      → is_idle next ≡ false
      → IsWatched (enter timeout_ms next c).0
  unfolding enter set_state arm_watchdog clear_watchdog IsWatched
  enter-IsWatched next c h =
      let armed : ltb 0 timeout_ms ≡ true = ground (arith, on) in ground (arith, armed, h)

  handle_request-IsWatched :
      (c : Coordinator) → IsWatched c → IsWatched (handle_request timeout_ms c).0
  unfolding handle_request IsWatched
  handle_request-IsWatched c h =
      let asked = record c { next_request = suc c.next_request } in
      let entered = enter timeout_ms requested asked in
      if-both (λ (r : Coordinator × List Effect). is_some r.0.watchdog ≡ busy r.0) (is_idle c.state)
        (
          record (entered.0) { sent = c.next_request ∷ entered.0.sent },
          entered.1 ++ send c.next_request ∷ [],
        )
        (asked, resolve c.next_request false ∷ []) (enter-IsWatched requested asked refl) h

  handle_answer-IsWatched :
      (id : ℕ) (is_failure : Bool) (c : Coordinator)
      → IsWatched c
      → IsWatched (handle_answer timeout_ms id is_failure c).0
  unfolding handle_answer IsWatched
  handle_answer-IsWatched id is_failure c h =
      let rest = record c { sent = keep (λ i. not (nat_beq i id)) c.sent } in
      let stopped = stop rest in
      let P : Coordinator × List Effect → Type 0 = λ r. is_some r.0.watchdog ≡ busy r.0 in
      if-both P (not (any (λ i. nat_beq i id) c.sent)) (c, [])
        (if is_failure
          then (stopped.0, stopped.1 ++ resolve id false ∷ [])
          else (rest, resolve id true ∷ []))
        h
        (if-both P is_failure (stopped.0, stopped.1 ++ resolve id false ∷ [])
          (rest, resolve id true ∷ []) (stop-IsWatched rest).0 h)

  handle_timer-IsWatched :
      (t : ℕ) (c : Coordinator) → IsWatched c → IsWatched (handle_timer timeout_ms t c).0
  unfolding handle_timer set_state IsWatched
  handle_timer-IsWatched t c h =
      let done = set_state idle (record c { watchdog = none }) in
      if-both (λ (r : Coordinator × List Effect). is_some r.0.watchdog ≡ busy r.0)
        (c.watchdog == some t) (done.0, done.1 ++ on_timeout ∷ []) (c, []) refl h

  stopped_or_idle :
      (c : Coordinator) → IsWatched c → IsWatched (if is_idle c.state then (c, []) else stop c).0
  stopped_or_idle c h =
      if-both (λ (r : Coordinator × List Effect). IsWatched r.0) (is_idle c.state) (c, []) (stop c)
        h (stop-IsWatched c).0

  step-IsWatched : (c : Coordinator) (e : Event) → IsWatched c → IsWatched (step timeout_ms c e).0
  unfolding step
  step-IsWatched c request h = handle_request-IsWatched c h
  step-IsWatched c (answered id is_failure) h = handle_answer-IsWatched id is_failure c h
  step-IsWatched c started h = by_phase c.state
    where
      by_phase :
          (s : Phase)
          → IsWatched
              (elim s as (λ _. Coordinator × List Effect) [
                | idle ↦ enter timeout_ms running c
                | requested ↦ enter timeout_ms running c
                | running ↦ (c, [])
              ]).0
      by_phase idle = enter-IsWatched running c refl
      by_phase requested = enter-IsWatched running c refl
      by_phase running = h
  step-IsWatched c (ended success error) h = stopped_or_idle c h
  step-IsWatched c reset h = stopped_or_idle c h
  step-IsWatched c (fires t) h = handle_timer-IsWatched t c h

  run-IsWatched :
      (c : Coordinator) (es : List Event) → IsWatched c → IsWatched (run timeout_ms c es).0
  unfolding run
  run-IsWatched c [] h = h
  run-IsWatched c (e ∷ es) h = run-IsWatched (step timeout_ms c e).0 es (step-IsWatched c e h)

  fires_of : (o : Option ℕ) → is_some o ≡ true → (t : ℕ) × (o ≡ some t)
  fires_of none h = cc
  fires_of (some t) h = (t, refl)

  -- With a timeout of at least one millisecond, after any calls, answers and timers: if the coordinator is
  -- busy, a timer is set, and when that timer fires the coordinator is idle again, tells so, and then
  -- reports the timeout. So a compaction whose end never comes does not keep it busy.
  pub run_times_out :
      (es : List Event)
      → let c = (run timeout_ms new_coordinator es).0 in
        busy c ≡ true
        → (t : ℕ) × ((c.watchdog ≡ some t)
            × (((step timeout_ms c (fires t)).0.state ≡ idle)
                × ((step timeout_ms c (fires t)).1 ≡ on_state idle ∷ on_timeout ∷ [])))
  unfolding step handle_timer set_state IsWatched
  run_times_out es h =
      let c = (run timeout_ms new_coordinator es).0 in
      let watched = run-IsWatched new_coordinator es refl in
      let (t, e) = fires_of c.watchdog (watched ∙ h) in
      let done = set_state idle (record c { watchdog = none }) in
      let hit : (c.watchdog == some t) ≡ true =
        ap (λ o. o == some t) e ∙ ==_refl {A = Option ℕ} (some t) in
      (
        t,
        (
          e,
          if-cases
              (λ (r : Coordinator × List Effect).
                (r.0.state ≡ idle) × (r.1 ≡ on_state idle ∷ on_timeout ∷ []))
              (c.watchdog == some t) (done.0, done.1 ++ on_timeout ∷ []) (c, []) (λ y. (refl, refl))
              (λ n. absurd (ground (arith, n, hit))),
        ),
      )
