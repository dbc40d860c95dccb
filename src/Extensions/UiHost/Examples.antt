-- ===== src/Extensions/UiHost/Examples.antt =====
-- Runs of the host of extension prompts.
use picot.Base.{
  ◌≤◌, String, ◌≡◌, refl, true, List, [], ◌∷◌, nat_eq, option_eq, codes, text_beq, text_eq, false,
}
use picot.JsMap.{get, set, delete}
use picot.Extensions.UiHost.{
  Pending, cancelled, Event, handles, switches, flushes, settles, run, step, new_host, handle,
  enqueue, show, show_next, settle, set_foreground_session, flush_foreground_queue, requeue_session,
  requeue_in_flight, abort, find_show, remove_show, Response, replies, cancels_session,
  cancel_session, cancel_next, resume, proceed, next_round, find_waiting, remove_waiting,
  is_blocking, is_hook, conclude,
}
use picot.Extensions.UiHost.Counts.{count, accounted}
use picot.Extensions.UiHost.Ledger.{all_brought, no_prompt_lost}

abbrev ask : String → Pending
ask id = record {
  target = record { workspace_id = codes "w"; session_id = codes "s"; instance_id = codes "i" };
  request = record { is_ui_request = true; id = codes id; method = codes "confirm" };
}

-- Two prompts of a background session; it comes to the foreground, and the user leaves while the
-- first is open. It is queued again, and the loop goes on to show the second one. The user comes back
-- and answers both, the second one first.
abbrev visits : List Event
visits =
    switches (codes "t")
    ∷ handles (ask "1")
    ∷ handles (ask "2")
    ∷ switches (codes "s")
    ∷ flushes
    ∷ switches (codes "t")
    ∷ settles 0 cancelled
    ∷ switches (codes "s")
    ∷ flushes
    ∷ settles 1 cancelled
    ∷ replies 1 true
    ∷ settles 2 cancelled
    ∷ []

abbrev response : String → Response
response id = record { to = ask id; answer = cancelled }

visits_answered : (run visits new_host).sent ≡ response "2" ∷ response "1" ∷ []
unfolding run step new_host handle enqueue show show_next settle set_foreground_session
    flush_foreground_queue requeue_session requeue_in_flight abort find_show remove_show is_blocking
    is_hook conclude proceed resume next_round find_waiting remove_waiting get set delete text_beq
visits_answered = refl

-- The runtime rejects the first answer of `cancelSession`: the second prompt is neither answered nor
-- kept.
abbrev rejected_cancel : List Event
rejected_cancel =
    switches (codes "t")
    ∷ handles (ask "1")
    ∷ handles (ask "2")
    ∷ cancels_session (codes "s")
    ∷ replies 0 false
    ∷ []

rejected_cancel_answers : (run rejected_cancel new_host).sent ≡ response "1" ∷ []
unfolding run step new_host handle enqueue is_blocking set_foreground_session cancel_session
    cancel_next resume find_waiting get set delete text_beq
rejected_cancel_answers = refl

no_prompt_lost_example :
    count (λ p. true) (all_brought visits) ≤ accounted (λ p. true) (run visits new_host)
no_prompt_lost_example =
    no_prompt_lost (λ p. true) visits
      (tt, (tt, (tt, (tt, (tt, (tt, (tt, (tt, (tt, (tt, (refl, (tt, tt))))))))))))
