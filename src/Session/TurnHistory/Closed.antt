-- ===== src/Session/TurnHistory/Closed.antt =====
-- The turns that `closeTurn` closes (public/native/session/turn-history.js).
use picot.Base.{
  ℕ, suc, ◌-◌, ◌≤◌, max, ◌≡◌, refl, sym, ap, subst, ◌≢◌, ◌⊎◌, inl, inr, Bool, true, false, Option,
  none, some, List, [], ◌∷◌, map, arith, if◌then◌else◌, nat_eq, if-cases, option_eq, text_eq,
  length, find, any, All, or_default, is_some,
}
use picot.Session.TurnHistory.Turns.{
  Status, running, aborted, unfinished, failed, unknown, completed, Step, Turn, max_steps_per_turn,
  latest_end, close_step, is_failed, is_aborted, is_unfinished, close_running, close_turn,
}

-- A step of an open turn: it starts no earlier than the turn, ends no earlier than it starts, and runs
-- until it ends.
pub record Span (from : ℕ) (s : Step) : Type 0 where
  pub starts : from ≤ s.started_at
  pub forward : s.started_at ≤ or_default s.ended_at s.started_at
  pub settled : (s.ended_at ≡ none) ⊎ (s.status ≢ running)

pub record IsOpen (now : ℕ) (t : Turn) : Type 0 where
  pub runs : t.status ≡ running
  pub began : t.started_at ≤ now
  pub few : length t.steps ≤ max_steps_per_turn
  pub spans : All (Span t.started_at) t.steps

-- A step of a closed turn lies inside it.
pub record IsDone (from to : ℕ) (s : Step) : Type 0 where
  pub end : ℕ
  pub ended : s.ended_at ≡ some end
  pub starts : from ≤ s.started_at
  pub forward : s.started_at ≤ end
  pub inside : end ≤ to
  pub stopped : s.status ≢ running

pub record IsClosed (t : Turn) : Type 0 where
  pub end : ℕ
  pub ended : t.ended_at ≡ some end
  pub forward : t.started_at ≤ end
  pub few : length t.steps ≤ max_steps_per_turn
  pub stopped : t.status ≢ running
  pub steps : All (IsDone t.started_at end) t.steps

latest_end-ge : (latest : ℕ) (ss : List Step) → latest ≤ latest_end latest ss
unfolding latest_end
latest_end-ge latest [] = omega arith
latest_end-ge latest (s ∷ ss) =
    omega (arith, latest_end-ge (max latest (or_default s.ended_at s.started_at)) ss)

latest_end-All :
    (latest : ℕ) (ss : List Step)
    → All (λ s. or_default s.ended_at s.started_at ≤ latest_end latest ss) ss
unfolding latest_end
latest_end-All latest [] = tt
latest_end-All latest (s ∷ ss) =
    let next = max latest (or_default s.ended_at s.started_at) in
    (omega (arith, latest_end-ge next ss), latest_end-All next ss)

some_of : (o : Option ℕ) → is_some o ≡ true → (x : ℕ) × (o ≡ some x)
some_of none h = cc
some_of (some x) h = (x, refl)

none_of : (o : Option ℕ) (d : ℕ) → is_some o ≡ false → or_default o d ≡ d
none_of none d h = refl
none_of (some x) d h = cc

close_step-IsDone :
    (from to : ℕ) (s : Step)
    → Span from s
    → or_default s.ended_at s.started_at ≤ to
    → IsDone from to (close_step to s)
unfolding close_step
close_step-IsDone from to s h l =
    if-cases (IsDone from to) (is_some s.ended_at) s
      (record s { ended_at = some to; duration_ms = some (to - s.started_at); status = unfinished })
      (λ has.
        let (x, e) = some_of s.ended_at has in
        record {
          end = x;
          ended = e;
          starts = h.starts;
          forward = ground (arith, e, h.forward);
          inside = ground (arith, e, l);
          stopped = elim h.settled [ inl n ↦ λ c. ground (arith, e, n) | inr n ↦ n ];
        })
      (λ lacks.
        let here : or_default s.ended_at s.started_at ≡ s.started_at =
          none_of s.ended_at s.started_at lacks in
        record {
          end = to;
          ended = refl;
          starts = h.starts;
          forward = subst (λ x. x ≤ to) here l;
          inside = omega arith;
          stopped = λ c. cc;
        })

close_steps-IsDone :
    (from to : ℕ) (ss : List Step)
    → All (Span from) ss
    → All (λ s. or_default s.ended_at s.started_at ≤ to) ss
    → All (IsDone from to) (map (close_step to) ss)
close_steps-IsDone from to [] h l = tt
close_steps-IsDone from to (s ∷ ss) h l =
    (close_step-IsDone from to s h.0 l.0, close_steps-IsDone from to ss h.1 l.1)

length-map : (f : Step → Step) (ss : List Step) → length (map f ss) ≡ length ss
length-map f [] = refl
length-map f (s ∷ ss) = ap suc (length-map f ss)

verdict_stopped :
    (a b c : Bool)
    → (if a then failed else if b then aborted else if c then unknown else completed) ≢ running
verdict_stopped true b c = λ h. cc
verdict_stopped false true c = λ h. cc
verdict_stopped false false true = λ h. cc
verdict_stopped false false false = λ h. cc

close_running-IsClosed : (now : ℕ) (t : Turn) → IsOpen now t → IsClosed (close_running t)
unfolding close_running
close_running-IsClosed now t h =
    let to = latest_end t.started_at t.steps in
    let steps = map (close_step to) t.steps in
    record {
      end = to;
      ended = refl;
      forward = latest_end-ge t.started_at t.steps;
      few = subst (λ n. n ≤ max_steps_per_turn) (sym (length-map (close_step to) t.steps)) h.few;
      stopped =
          verdict_stopped (is_some (find is_failed steps)) (any is_aborted steps)
            (any is_unfinished steps);
      steps =
          close_steps-IsDone t.started_at to t.steps h.spans (latest_end-All t.started_at t.steps);
    }

pub close_turn-IsClosed : (now : ℕ) (t : Turn) → IsOpen now t → IsClosed (close_turn t)
unfolding close_turn
close_turn-IsClosed now t h =
    subst (λ (st : Status). IsClosed (elim st [ running ↦ close_running t | _ ↦ t ])) (sym h.runs)
      (close_running-IsClosed now t h)
