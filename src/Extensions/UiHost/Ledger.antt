-- ===== src/Extensions/UiHost/Ledger.antt =====
-- No prompt is lost in `ExtensionUiHost`: every step accounts for at least the prompts that the state
-- before it did, and for the one that it brings.
use picot.Base.{
  ℕ, ◌+◌, ◌≤◌, ◌≡◌, inl, inr, Bool, true, ◌&&◌, some, List, [], ◌∷◌, ◌++◌, arith, if◌then◌else◌,
  nat_eq, Option-cases, option_eq, Text, text_eq, All, truthy,
}
use picot.JsMap.{get, delete, IsMap, set-IsMap, delete-IsMap}
use picot.Extensions.UiHost.{
  Pending, Disposition, respond, requeue_after, requeued_now, Answer, unsupported, Host, queue_of,
  is_blocking, show, show_next, find_show, remove_show, unshift, requeue_in_flight, requeue_session,
  requeue_foreground_prompt, cancel_foreground, set_foreground_session, flush_foreground_queue,
  enqueue, handle, cancel_session, release, conclude, settle, Event, handles, switches, flushes,
  requeues, cancels, cancels_session, settles, replies, step, cancel_next, Loop, flushing,
  cancelling, find_waiting, remove_waiting, next_round, resume, proceed, run, new_host,
}
use picot.Extensions.UiHost.Counts.{
  count, queued, standing, shown, held, answered, accounted-resume, accounted, count-append,
  answered-append, queued-set, accounted-requeue, accounted-cancel, accounted-cancel_foreground,
  accounted-flush, accounted-settle,
}

-- The prompts that an event brings to the host.
unfoldable pub brought : Event → List Pending
unfolding is_blocking
brought (handles p) =
    let r = p.request in
    if r.is_ui_request && truthy r.id && truthy r.method && is_blocking r.method then p ∷ [] else []
brought (switches sid) = []
brought flushes = []
brought requeues = []
brought cancels = []
brought (cancels_session sid) = []
brought (settles id a) = []
brought (replies id accepted) = []

unfoldable pub all_brought : List Event → List Pending
all_brought [] = []
all_brought (e ∷ es) = brought e ++ all_brought es

-- The runtime does not reject an answer.
abbrev pub IsAccepted : Event → Type 0
IsAccepted (handles p) = Unit
IsAccepted (switches sid) = Unit
IsAccepted flushes = Unit
IsAccepted requeues = Unit
IsAccepted cancels = Unit
IsAccepted (cancels_session sid) = Unit
IsAccepted (settles id a) = Unit
IsAccepted (replies id accepted) = accepted ≡ true

module _ (q : Pending → Bool) where
  accounted-handle :
      (p : Pending) (h : Host)
      → accounted q h + count q (brought (handles p)) ≤ accounted q (handle p h)
  unfolding brought handle accounted enqueue show shown standing count answered
  accounted-handle p h =
      let sid = p.target.session_id in
      ground (
        arith,
        queued-set q sid (queue_of sid h ++ p ∷ []) h.queues,
        count-append q (queue_of sid h) (p ∷ []),
        answered-append q h.sent (record { to = p; answer = unsupported } ∷ []),
      )

  accounted-switch :
      (sid : Text) (h : Host) → accounted q h ≤ accounted q (set_foreground_session sid h)
  unfolding set_foreground_session accounted
  accounted-switch sid h = elim (Option-cases h.foreground) [
    | inl nowhere ↦ ground arith
    | inr (old, here) ↦
        ground (arith, here, accounted-requeue q old (record h { foreground = some sid }))
  ]

  accounted-requeue_foreground :
      (h : Host) → accounted q h ≤ accounted q (requeue_foreground_prompt h)
  unfolding requeue_foreground_prompt
  accounted-requeue_foreground h = elim (Option-cases h.foreground) [
    | inl nowhere ↦ ground arith
    | inr (old, here) ↦ ground (arith, here, accounted-requeue q old h)
  ]

  accounted-step :
      (e : Event) (h : Host)
      → IsAccepted e
      → IsMap h.queues
      → accounted q h + count q (brought e) ≤ accounted q (step e h)
  unfolding step brought count
  accounted-step (handles p) h ok m = accounted-handle p h
  accounted-step (switches sid) h ok m = ground (arith, accounted-switch sid h)
  accounted-step flushes h ok m = ground (arith, accounted-flush q h m)
  accounted-step requeues h ok m = ground (arith, accounted-requeue_foreground h)
  accounted-step cancels h ok m = ground (arith, accounted-cancel_foreground q h m)
  accounted-step (cancels_session sid) h ok m = ground (arith, accounted-cancel q sid h m)
  accounted-step (settles id a) h ok m = ground (arith, accounted-settle q id a h)
  accounted-step (replies id accepted) h ok m = ground (arith, ok, accounted-resume q id h)

unshift-IsMap :
    (sid : Text) (p : Pending) (h : Host) → IsMap h.queues → IsMap (unshift sid p h).queues
unshift-IsMap sid p h m = set-IsMap sid (p ∷ queue_of sid h) h.queues m

requeue-IsMap : (sid : Text) (h : Host) → IsMap h.queues → IsMap (requeue_session sid h).queues
unfolding requeue_session requeue_in_flight
requeue-IsMap sid h m = elim (Option-cases (get sid h.in_flight)) [
  | inl none_there ↦ ground arith
  | inr (id, there) ↦ elim (Option-cases (find_show id h.shows)) [
    | inl no_show ↦ ground arith
    | inr (s, found) ↦ ground (arith, there, found, unshift-IsMap sid s.pending h m)
  ]
]

show-IsMap : (ps : List Pending) (h : Host) → IsMap h.queues → IsMap (show_next ps h).queues
unfolding show_next show
show-IsMap [] h m = m
show-IsMap (p ∷ ps) h m = m

conclude-IsMap :
    (d : Disposition) (a : Answer) (p : Pending) (h : Host)
    → IsMap h.queues
    → IsMap (conclude d a p h).queues
unfolding conclude
conclude-IsMap respond a p h m = m
conclude-IsMap requeue_after a p h m = unshift-IsMap p.target.session_id p h m
conclude-IsMap requeued_now a p h m = m

handle-IsMap : (p : Pending) (h : Host) → IsMap h.queues → IsMap (handle p h).queues
unfolding handle enqueue show
handle-IsMap p h m =
    let sid = p.target.session_id in
    ground (arith, set-IsMap sid (queue_of sid h ++ p ∷ []) h.queues m)

cancel_next-IsMap :
    (ps : List Pending) (h : Host) → IsMap h.queues → IsMap (cancel_next ps h).queues
unfolding cancel_next
cancel_next-IsMap [] h m = m
cancel_next-IsMap (p ∷ ps) h m = m

proceed-IsMap :
    (d : Disposition) (id : ℕ) (rest : List Pending) (h : Host)
    → IsMap h.queues
    → IsMap (proceed d id rest h).queues
unfolding proceed
proceed-IsMap respond id rest h m = m
proceed-IsMap requeue_after id rest h m = show-IsMap rest h m
proceed-IsMap requeued_now id rest h m = show-IsMap rest h m

settle-IsMap : (id : ℕ) (a : Answer) (h : Host) → IsMap h.queues → IsMap (settle id a h).queues
unfolding settle
settle-IsMap id a h m = elim (Option-cases (find_show id h.shows)) [
  | inl settled ↦ ground arith
  | inr (s, found) ↦
      let done = record h { shows = remove_show id h.shows; in_flight = release s h.in_flight } in
      let m2 = conclude-IsMap s.disposition a s.pending done m in
      ground (
        arith,
        found,
        proceed-IsMap s.disposition id s.rest (conclude s.disposition a s.pending done) m2,
      )
]

round-IsMap :
    (l : Loop) (ps : List Pending) (h : Host) → IsMap h.queues → IsMap (next_round l ps h).queues
unfolding next_round
round-IsMap flushing ps h m = show-IsMap ps h m
round-IsMap cancelling ps h m = cancel_next-IsMap ps h m

resume-IsMap :
    (id : ℕ) (accepted : Bool) (h : Host) → IsMap h.queues → IsMap (resume id accepted h).queues
unfolding resume
resume-IsMap id accepted h m = elim (Option-cases (find_waiting id h.unanswered)) [
  | inl over ↦ ground arith
  | inr (w, found) ↦
      let done = record h { unanswered = remove_waiting id h.unanswered } in
      ground (arith, found, m, round-IsMap w.loop w.rest done m)
]

step-IsMap : (e : Event) (h : Host) → IsMap h.queues → IsMap (step e h).queues
unfolding step set_foreground_session flush_foreground_queue requeue_foreground_prompt
    cancel_foreground cancel_session
step-IsMap (handles p) h m = handle-IsMap p h m
step-IsMap (switches sid) h m = elim (Option-cases h.foreground) [
  | inl nowhere ↦ ground (arith, nowhere, m)
  | inr (old, here) ↦
      ground (arith, here, m, requeue-IsMap old (record h { foreground = some sid }) m)
]
step-IsMap flushes h m = elim (Option-cases h.foreground) [
  | inl nowhere ↦ ground (arith, nowhere, m)
  | inr (sid, here) ↦
      let m2 = delete-IsMap sid h.queues m in
      ground
        (arith, here, m, show-IsMap (queue_of sid h) (record h { queues = delete sid h.queues }) m2)
]
step-IsMap requeues h m = elim (Option-cases h.foreground) [
  | inl nowhere ↦ ground (arith, nowhere, m)
  | inr (sid, here) ↦ ground (arith, here, requeue-IsMap sid h m)
]
step-IsMap cancels h m = elim (Option-cases h.foreground) [
  | inl nowhere ↦ ground (arith, nowhere, m)
  | inr (sid, here) ↦ ground (arith, here, delete-IsMap sid h.queues m)
]
step-IsMap (cancels_session sid) h m =
    cancel_next-IsMap (queue_of sid h) (record h { queues = delete sid h.queues })
      (delete-IsMap sid h.queues m)
step-IsMap (settles id a) h m = settle-IsMap id a h m
step-IsMap (replies id accepted) h m = resume-IsMap id accepted h m

accounted-run :
    (q : Pending → Bool) (es : List Event) (h : Host)
    → All IsAccepted es
    → IsMap h.queues
    → accounted q h + count q (all_brought es) ≤ accounted q (run es h)
unfolding run all_brought count
accounted-run q [] h ok m = omega arith
accounted-run q (e ∷ es) h ok m = ground (
  arith,
  accounted-step q e h ok.0 m,
  accounted-run q es (step e h) ok.1 (step-IsMap e h m),
  count-append q (brought e) (all_brought es),
)

-- For every test q on prompts and every sequence of calls, switches, flushes, requeues, cancels,
-- settled dialogs and replies of the runtime in which it rejects no answer: the prompts passing q
-- that the calls brought (UI requests with an id and a blocking method) are at most those passing q
-- that the host still has queued, has in a dialog that was not queued again, has next in a loop that
-- shows or cancels, or has answered. So no blocking prompt is lost.
pub no_prompt_lost :
    (q : Pending → Bool) (es : List Event)
    → All IsAccepted es
    → count q (all_brought es) ≤ accounted q (run es new_host)
unfolding new_host accounted queued shown held answered
no_prompt_lost q es ok = ground (arith, accounted-run q es new_host ok tt)
