-- ===== src/Inbox/Task/Examples.antt =====
-- Runs of the transitions of an inbox task.
use picot.Base.{
  ◌≡◌, refl, none, some, List, [], ◌∷◌, nat_eq, option_eq, Text, codes, text_eq, is_space,
  trim_start, trim_end, trim, length, or_default, or_text,
}
use picot.Inbox.Task.{
  Task, Step, for_dispatch, asks, finished, apply, apply_all, normalize_super_agent_task,
  mark_task_for_dispatch, mark_task_needs_input, mark_task_finished, result_of,
}
use picot.Inbox.Task.History.{Follows, normalize_idem, apply_all-Follows, stale_fail_reason}

abbrev stored : Task
stored = record {
  id = some (codes "task-1");
  status = none;
  title = some (codes "Fix it");
  description = none;
  target_project = some (codes "/p");
  fail_reason = none;
  source = none;
  result = none;
  dispatch = none;
  events = none;
}

abbrev asked_and_done : List (Text × Step)
asked_and_done =
    (codes "t1", for_dispatch none (some 80))
    ∷ (codes "t2", asks (some (codes "which?")))
    ∷ (codes "t3", for_dispatch none (some 80))
    ∷ (codes "t4", finished none (some (codes "fixed")) none)
    ∷ []

-- The task is done, and carries the old question as the reason of a failure.
asked_and_done_run :
    (apply_all (codes "f") asked_and_done stored).fail_reason ≡ some (codes "which?")
unfolding apply_all apply mark_task_for_dispatch mark_task_needs_input mark_task_finished
    normalize_super_agent_task trim trim_start trim_end is_space
asked_and_done_run = refl

normalize_idem_example :
    normalize_super_agent_task (codes "other") (normalize_super_agent_task (codes "fresh") stored)
    ≡ normalize_super_agent_task (codes "fresh") stored
normalize_idem_example = normalize_idem 102 (codes "resh") (codes "other") stored

apply_all-Follows_example :
    Follows stored (apply_all (codes "f") asked_and_done stored) (length asked_and_done)
apply_all-Follows_example =
    apply_all-Follows (codes "f") asked_and_done stored
      (record { has_id = refl; has_target = refl })

abbrev asked_again : Task
asked_again = mark_task_finished (codes "f") (codes "t") none (some (codes "fixed")) none (
    mark_task_for_dispatch (codes "f") (codes "t") none (some 80)
      (mark_task_needs_input (codes "f") (codes "t") (some (codes "which?")) stored))

stale_fail_reason_example :
    ((result_of asked_again).status ≡ some (codes "done"))
    × ((result_of asked_again).fail_reason
        ≡ some (
            or_text
              (some (trim (or_default (some (codes "which?")) [])))
              (codes "More information is needed.")))
stale_fail_reason_example =
    stale_fail_reason (codes "f") (codes "t") (some (codes "which?")) (some (codes "fixed")) none
      (some 80) stored
