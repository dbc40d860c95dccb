-- ===== src/Inbox/Task/History.antt =====
-- What the transitions of an inbox task keep: public/super-agent/task-state.js.
use picot.Base.{
  ℕ, ◌+◌, ◌≤◌, ◌≡◌, refl, sym, ap, subst, ◌∙◌, inl, inr, true, not, ◌||◌, Option, none, some, List,
  [], ◌∷◌, ◌++◌, append_assoc, append-nil, arith, ◌==◌, nat_eq, Bool-cases, option_eq, Text, codes,
  text_eq, trim, length, length-append, or_default, is_some, truthy?, or_text, or_text?,
}
use picot.Inbox.Task.{
  Event, Task, Step, for_dispatch, dispatch_target, child_session_bound, asks, finished, events_of,
  source_of, result_of, dispatch_of, normalize_super_agent_task, mark_task_for_dispatch,
  mark_task_dispatch_target, mark_task_child_session_bound, mark_task_needs_input,
  mark_task_finished, apply, apply_all, running, event, dispatched_message,
}

-- Normalizing a task again changes nothing, whatever id the second normalization would give, if the
-- id that the first one gives to a task without one is not empty.
pub normalize_idem :
    (c : ℕ) (fresh other : Text) (t : Task)
    → let n = normalize_super_agent_task (c ∷ fresh) t in normalize_super_agent_task other n ≡ n
unfolding normalize_super_agent_task
normalize_idem c fresh other t = ground arith

-- What a transition leaves as it was, and the one event that it may add.
pub record Follows (t u : Task) (n : ℕ) : Type 0 where
  pub id : u.id ≡ t.id
  pub title : u.title ≡ t.title
  pub description : u.description ≡ t.description
  pub source : source_of u ≡ source_of t
  pub target : u.target_project ≡ t.target_project
  pub started :
      or_text? (dispatch_of t).started_at (dispatch_of u).started_at ≡ (dispatch_of u).started_at
  pub added : (new : List Event) × (events_of u ≡ events_of t ++ new) × (length new ≤ n)

-- A task as the store holds it.
pub record IsNormal (t : Task) : Type 0 where
  pub has_id : truthy? t.id ≡ true
  pub has_target : is_some t.target_project ≡ true

bound_added :
    (fresh at : Text) (c : Option Text) (t : Task)
    → (new : List Event) × (events_of (mark_task_child_session_bound fresh at c t)
        ≡ events_of t ++ new)
      × (length new ≤ 1)
unfolding mark_task_child_session_bound
bound_added fresh at c t =
    elim (Bool-cases (not (truthy? c) || (dispatch_of t).child_session_id == c)) [
      | inl same ↦ ([], ground (arith, same, append-nil (events_of t)), omega arith)
      | inr new ↦ (
        event at (codes "session_bound") (or_text t.status (codes "pending"))
              (codes "Child session bound: " ++ or_default c [] ++ codes ".")
            ∷ [],
        ground (arith, new),
        omega arith,
      )
    ]

apply-Follows :
    (fresh : Text) (s : Text × Step) (t : Task) → IsNormal t → Follows t (apply fresh s t) 1
unfolding apply
apply-Follows fresh (at, for_dispatch p q) t h =
    unfold mark_task_for_dispatch in
    record {
      id = ground arith;
      title = ground arith;
      description = ground arith;
      source = ground arith;
      target = ground arith;
      started = ground arith;
      added =
          (event at (codes "dispatched") running (dispatched_message q) ∷ [], refl, omega arith);
    }
apply-Follows fresh (at, dispatch_target w i c) t h =
    unfold mark_task_dispatch_target in
    record {
      id = ground arith;
      title = ground arith;
      description = ground arith;
      source = ground arith;
      target = ground arith;
      started = ground arith;
      added = (_ ∷ [], refl, omega arith);
    }
apply-Follows fresh (at, child_session_bound c) t h =
    unfold mark_task_child_session_bound in
    record {
      id = ground arith;
      title = ground arith;
      description = ground arith;
      source = ground arith;
      target = ground arith;
      started = ground arith;
      added = bound_added fresh at c t;
    }
apply-Follows fresh (at, asks q) t h =
    unfold mark_task_needs_input in
    record {
      id = ground arith;
      title = ground arith;
      description = ground arith;
      source = ground arith;
      target = ground arith;
      started = ground arith;
      added = (_ ∷ [], refl, omega arith);
    }
apply-Follows fresh (at, finished st su r) t h =
    unfold mark_task_finished in
    record {
      id = ground arith;
      title = ground arith;
      description = ground arith;
      source = ground arith;
      target = ground arith;
      started = ground arith;
      added = (_ ∷ [], refl, omega arith);
    }

apply-IsNormal :
    (fresh : Text) (s : Text × Step) (t : Task) → IsNormal t → IsNormal (apply fresh s t)
apply-IsNormal fresh s t h =
    let f = apply-Follows fresh s t h in
    record { has_id = rw f.id h.has_id; has_target = rw f.target h.has_target }

Follows-trans : {t u v : Task} {m n : ℕ} → Follows t u m → Follows u v n → Follows t v (m + n)
Follows-trans {t} {u} {v} f g =
    let (new, f', bound) = f.added in
    let (newer, g', bound') = g.added in
    record {
      id = g.id ∙ f.id;
      title = g.title ∙ f.title;
      description = g.description ∙ f.description;
      source = g.source ∙ f.source;
      target = g.target ∙ f.target;
      started = ground (arith, f.started, g.started);
      added = (
        new ++ newer,
        g' ∙ ap (λ x. x ++ newer) f' ∙ append_assoc (events_of t) new newer,
        omega (arith, length-append new newer),
      );
    }

-- Over any transitions, a task that has an id and a target project keeps both, its title, its
-- description and its source; the time at which it was first started stays; and its history only
-- grows, at its end, by at most one event for each transition.
pub apply_all-Follows :
    (fresh : Text) (ss : List (Text × Step)) (t : Task)
    → IsNormal t
    → Follows t (apply_all fresh ss t) (length ss)
unfolding apply_all
apply_all-Follows fresh [] t h = record {
  id = refl;
  title = refl;
  description = refl;
  source = refl;
  target = refl;
  started = ground arith;
  added = ([], sym (append-nil (events_of t)), omega arith);
}
apply_all-Follows fresh (s ∷ ss) t h =
    let f = apply-Follows fresh s t h in
    let g = apply_all-Follows fresh ss (apply fresh s t) (apply-IsNormal fresh s t h) in
    subst (Follows t (apply_all fresh ss (apply fresh s t))) (omega arith) (Follows-trans f g)

-- A task that asked a question, was dispatched again and then finishes as done, with no reason
-- given, is stored as done with the question as the reason of its failure: the second dispatch
-- clears the result but not the reason beside it, and the next transition puts that back.
pub stale_fail_reason :
    (fresh at : Text) (question summary : Option Text) (p q : Option ℕ) (t : Task)
    → let asked = mark_task_needs_input fresh at question t in
      let again = mark_task_for_dispatch fresh at p q asked in
      let done = mark_task_finished fresh at none summary none again in
      ((result_of done).status ≡ some (codes "done"))
      × ((result_of done).fail_reason
          ≡ some (
              or_text (some (trim (or_default question []))) (codes "More information is needed.")))
unfolding mark_task_needs_input mark_task_for_dispatch mark_task_finished
stale_fail_reason fresh at question summary p q t = (refl, refl)
