-- ===== src/Extensions/UiHost/Counts.antt =====
-- The prompts that a state of `ExtensionUiHost` accounts for, counted by any test: how the parts of
-- a step change the count.
use picot.Base.{
  ℕ, ◌+◌, ◌≤◌, ◌≡◌, refl, inl, inr, Bool, true, Option, none, some, List, [], ◌∷◌, ◌++◌, arith,
  if◌then◌else◌, nat_eq, Option-cases, option_eq, Text, text_beq_iff, text_eq, or_default,
}
use picot.JsMap.{delete_missing, get, set, delete, IsMap}
use picot.Extensions.UiHost.{
  Pending, Disposition, respond, requeue_after, requeued_now, Show, Answer, cancelled, Response,
  Host, queue_of, answers, show, show_next, abort, find_show, remove_show, unshift,
  requeue_in_flight, requeue_session, abort_in_flight, cancel_foreground, flush_foreground_queue,
  cancel_session, release, conclude, settle, cancel_next, Waiting, Loop, flushing, cancelling,
  find_waiting, remove_waiting, next_round, resume, proceed,
}

module _ (q : Pending → Bool) where
  unfoldable pub count : List Pending → ℕ
  count [] = 0
  count (p ∷ ps) = (if q p then 1 else 0) + count ps

  unfoldable pub queued : List (Text × List Pending) → ℕ
  unfolding count
  queued [] = 0
  queued ((k, ps) ∷ m) = count ps + queued m

  -- A dialog that was queued again no longer stands for its prompt.
  unfoldable pub standing : Disposition → Pending → ℕ
  unfolding count
  standing respond p = count (p ∷ [])
  standing requeue_after p = count (p ∷ [])
  standing requeued_now p = 0

  unfoldable pub shown : List Show → ℕ
  unfolding count standing
  shown [] = 0
  shown (s ∷ ss) = standing s.disposition s.pending + count s.rest + shown ss

  -- What the loops hold that await the runtime.
  unfoldable pub held : List Waiting → ℕ
  unfolding count
  held [] = 0
  held (w ∷ ws) = count w.rest + held ws

  unfoldable pub answered : List Response → ℕ
  unfolding count
  answered [] = 0
  answered (r ∷ rs) = count (r.to ∷ []) + answered rs

  unfoldable pub accounted : Host → ℕ
  unfolding queued shown held answered
  accounted h = queued h.queues + shown h.shows + held h.unanswered + answered h.sent

  pub count-append : (ps qs : List Pending) → count (ps ++ qs) ≡ count ps + count qs
  unfolding count
  count-append [] qs = omega arith
  count-append (p ∷ ps) qs = ground (arith, count-append ps qs)

  pub answered-append : (rs ts : List Response) → answered (rs ++ ts) ≡ answered rs + answered ts
  unfolding answered
  answered-append [] ts = omega arith
  answered-append (r ∷ rs) ts = ground (arith, answered-append rs ts)

  pub answered-answers : (a : Answer) (ps : List Pending) → answered (answers a ps) ≡ count ps
  unfolding answered answers count
  answered-answers a [] = refl
  answered-answers a (p ∷ ps) = ground (arith, answered-answers a ps)

  pub queued-set :
      (k : Text) (ps : List Pending) (m : List (Text × List Pending))
      → queued (set k ps m) + count (or_default (get k m) []) ≡ queued m + count ps
  unfolding queued set get count
  queued-set k ps [] = omega arith
  queued-set k ps ((j, v) ∷ m) = ground (arith, queued-set k ps m)

  pub queued-delete :
      (k : Text) (m : List (Text × List Pending))
      → IsMap m
      → queued (delete k m) + count (or_default (get k m) []) ≡ queued m
  unfolding queued delete get count
  queued-delete k [] h = refl
  queued-delete k ((j, v) ∷ m) h =
      ground (arith, queued-delete k m h.1, delete_missing k m, text_beq_iff j k)

  standing-le : (d : Disposition) (p : Pending) → standing d p ≤ standing respond p
  unfolding standing count
  standing-le respond p = omega arith
  standing-le requeue_after p = omega arith
  standing-le requeued_now p = ground arith

  shown-abort_requeued :
      (id : ℕ) (ss : List Show) (s : Show)
      → find_show id ss ≡ some s
      → shown ss ≤ shown (abort id requeued_now ss) + count (s.pending ∷ [])
  unfolding shown abort find_show standing count
  shown-abort_requeued id [] s h = ground arith
  shown-abort_requeued id (u ∷ us) s h =
      ground (arith, standing-le u.disposition u.pending, shown-abort_requeued id us s)

  shown-abort_respond : (id : ℕ) (ss : List Show) → shown ss ≤ shown (abort id respond ss)
  unfolding shown abort standing count
  shown-abort_respond id [] = omega arith
  shown-abort_respond id (s ∷ ss) =
      ground (arith, standing-le s.disposition s.pending, shown-abort_respond id ss)

  shown-remove :
      (id : ℕ) (ss : List Show) (s : Show)
      → find_show id ss ≡ some s
      → shown ss ≡ standing s.disposition s.pending + count s.rest + shown (remove_show id ss)
  unfolding shown remove_show find_show
  shown-remove id [] s h = ground arith
  shown-remove id (u ∷ us) s h = ground (arith, shown-remove id us s)

  pub accounted-show :
      (ps : List Pending) (h : Host) → accounted (show_next ps h) ≡ accounted h + count ps
  unfolding accounted show_next show shown count standing
  accounted-show [] h = omega arith
  accounted-show (p ∷ ps) h = omega arith

  pub accounted-unshift :
      (sid : Text) (p : Pending) (h : Host)
      → accounted (unshift sid p h) ≡ accounted h + count (p ∷ [])
  unfolding accounted count
  accounted-unshift sid p h = ground (arith, queued-set sid (p ∷ queue_of sid h) h.queues)

  pub accounted-requeue : (sid : Text) (h : Host) → accounted h ≤ accounted (requeue_session sid h)
  unfolding accounted requeue_session requeue_in_flight count
  accounted-requeue sid h = elim (Option-cases (get sid h.in_flight)) [
    | inl none_there ↦ ground arith
    | inr (id, there) ↦ elim (Option-cases (find_show id h.shows)) [
      | inl no_show ↦ ground arith
      | inr (s, found) ↦ ground (
        arith,
        queued-set sid (s.pending ∷ queue_of sid h) h.queues,
        shown-abort_requeued id h.shows s found,
      )
    ]
  ]

  held-remove :
      (id : ℕ) (ws : List Waiting) (w : Waiting)
      → find_waiting id ws ≡ some w
      → held ws ≡ count w.rest + held (remove_waiting id ws)
  unfolding held find_waiting remove_waiting
  held-remove id [] w h = ground arith
  held-remove id (v ∷ vs) w h = ground (arith, held-remove id vs w)

  accounted-cancel_next :
      (ps : List Pending) (h : Host) → accounted (cancel_next ps h) ≡ accounted h + count ps
  unfolding accounted cancel_next held count answered
  accounted-cancel_next [] h = omega arith
  accounted-cancel_next (p ∷ ps) h =
      ground (arith, answered-append h.sent (record { to = p; answer = cancelled } ∷ []))

  pub accounted-cancel :
      (sid : Text) (h : Host) → IsMap h.queues → accounted h ≤ accounted (cancel_session sid h)
  unfolding accounted cancel_session
  accounted-cancel sid h m = ground (
    arith,
    queued-delete sid h.queues m,
    accounted-cancel_next (queue_of sid h) (record h { queues = delete sid h.queues }),
  )

  shown-abort_in_flight :
      (id : Option ℕ) (ss : List Show) → shown ss ≤ shown (abort_in_flight id ss)
  shown-abort_in_flight none ss = omega arith
  shown-abort_in_flight (some id) ss = shown-abort_respond id ss

  pub accounted-cancel_foreground :
      (h : Host) → IsMap h.queues → accounted h ≤ accounted (cancel_foreground h)
  unfolding accounted cancel_foreground
  accounted-cancel_foreground h m = elim (Option-cases h.foreground) [
    | inl nowhere ↦ ground arith
    | inr (sid, here) ↦ ground (
      arith,
      here,
      queued-delete sid h.queues m,
      answered-append h.sent (answers cancelled (queue_of sid h)),
      answered-answers cancelled (queue_of sid h),
      shown-abort_in_flight (get sid h.in_flight) h.shows,
    )
  ]

  pub accounted-flush :
      (h : Host) → IsMap h.queues → accounted h ≤ accounted (flush_foreground_queue h)
  unfolding flush_foreground_queue accounted
  accounted-flush h m = elim (Option-cases h.foreground) [
    | inl nowhere ↦ ground arith
    | inr (sid, here) ↦ ground (
      arith,
      here,
      queued-delete sid h.queues m,
      accounted-show (queue_of sid h) (record h { queues = delete sid h.queues }),
    )
  ]

  pub accounted-conclude :
      (d : Disposition) (a : Answer) (p : Pending) (h : Host)
      → accounted (conclude d a p h) ≡ accounted h + standing d p
  unfolding conclude accounted answered standing count
  accounted-conclude respond a p h =
      ground (arith, answered-append h.sent (record { to = p; answer = a } ∷ []))
  accounted-conclude requeue_after a p h = accounted-unshift p.target.session_id p h
  accounted-conclude requeued_now a p h = omega arith

  accounted-proceed :
      (d : Disposition) (id : ℕ) (rest : List Pending) (h : Host)
      → accounted (proceed d id rest h) ≡ accounted h + count rest
  unfolding proceed accounted held
  accounted-proceed respond id rest h = omega arith
  accounted-proceed requeue_after id rest h = accounted-show rest h
  accounted-proceed requeued_now id rest h = accounted-show rest h

  pub accounted-settle : (id : ℕ) (a : Answer) (h : Host) → accounted h ≤ accounted (settle id a h)
  unfolding settle accounted
  accounted-settle id a h = elim (Option-cases (find_show id h.shows)) [
    | inl settled ↦ ground arith
    | inr (s, found) ↦
        let done = record h { shows = remove_show id h.shows; in_flight = release s h.in_flight } in
        ground (
          arith,
          found,
          shown-remove id h.shows s found,
          accounted-conclude s.disposition a s.pending done,
          accounted-proceed s.disposition id s.rest (conclude s.disposition a s.pending done),
        )
  ]

  accounted-round :
      (l : Loop) (ps : List Pending) (h : Host)
      → accounted (next_round l ps h) ≡ accounted h + count ps
  unfolding next_round
  accounted-round flushing ps h = accounted-show ps h
  accounted-round cancelling ps h = accounted-cancel_next ps h

  pub accounted-resume : (id : ℕ) (h : Host) → accounted h ≤ accounted (resume id true h)
  unfolding resume accounted
  accounted-resume id h = elim (Option-cases (find_waiting id h.unanswered)) [
    | inl over ↦ ground arith
    | inr (w, found) ↦
        let done = record h { unanswered = remove_waiting id h.unanswered } in
        ground
          (arith, found, held-remove id h.unanswered w found, accounted-round w.loop w.rest done)
  ]
