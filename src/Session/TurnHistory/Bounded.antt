-- ===== src/Session/TurnHistory/Bounded.antt =====
-- Every turn that `buildTurnsFromEntries` returns is closed around its steps
-- (public/native/session/turn-history.js).
use picot.Base.{
  ℕ, zero, suc, ◌-◌, ◌≤◌, refl, sym, subst, ◌≢◌, inl, inr, Option, none, some, List, [], ◌∷◌, arith,
  if◌then◌else◌, ◌==◌, nat_eq, if-both, option_elim, option_eq, Text, codes, text_eq, length, drop,
  All, length-drop, or_default, or_option, or_text,
}
use picot.Session.TurnHistory.{Block, Entry, clamp_text, active_chain}
use picot.Session.TurnHistory.Turns.{
  running, ok, errored, aborted, Target, Turn, max_steps_per_turn, push_step, add_usage, update_at,
  Build, new_build, finish, drop_idle, start_turn,
}
use picot.Session.TurnHistory.Entries.{
  Normal, text_from_content, tool_call_blocks, sort_by_start, Role, prompt_role, assistant_role,
  result_role, other_role, role_of, normalized,
}
use picot.Session.TurnHistory.Closed.{Span, IsOpen, IsClosed}
use picot.Session.TurnHistory.Order.{Rising, sort_by_start-Rising, normalized-Forward}
use picot.Session.TurnHistory.Build.{
  awaited, open_or_new, settle, model_step_of, tool_step_of, push_tools, take_answer, take_prompt,
  step_of, without, take_result, take_entry, take_entries, turns_of_chain, build_turns_from_entries,
}
use picot.Session.TurnHistory.Open.{
  IsBuilt, IsBuilt-later, IsBuilt-turn, finish-IsBuilt, drop_idle-IsBuilt, start_turn-IsBuilt,
  push_step-IsOpen, settle-Span, update_at-Span,
}

module _ {A : Type 0} (describe : Option A → Text) (signature : Text → Option A → Text) where
  model_step_of-Span :
      (from : ℕ) (n : Normal A)
      → from ≤ n.started_at
      → n.started_at ≤ n.ended_at
      → Span from (model_step_of describe signature n)
  unfolding model_step_of
  model_step_of-Span from n l f = record {
    starts = l;
    forward = f;
    settled = inr (
        if-both (λ st. st ≢ running) (n.message.stop_reason == some (codes "error")) errored
          (if n.message.stop_reason == some (codes "aborted") then aborted else ok) (λ c. cc)
          (if-both (λ st. st ≢ running) (n.message.stop_reason == some (codes "aborted")) aborted ok
            (λ c. cc) (λ c. cc)));
  }

  tool_step_of-Span :
      (from ended : ℕ) (block : Block A)
      → from ≤ ended
      → Span from (tool_step_of describe signature ended block)
  unfolding tool_step_of
  tool_step_of-Span from ended block l = record {
    starts = l;
    forward = omega arith;
    settled = inl refl;
  }

  push_tools-IsBuilt :
      (now ended : ℕ) (b : Build) (t : Turn) (blocks : List (Block A))
      → All IsClosed b.turns
      → IsOpen now t
      → now ≤ ended
      → IsBuilt now (push_tools describe signature ended b t blocks)
  unfolding push_tools
  push_tools-IsBuilt now ended b t [] h k l = record { closed = h; open_turn = k }
  push_tools-IsBuilt now ended b t (block ∷ blocks) h k l =
      let step = tool_step_of describe signature ended block in
      push_tools-IsBuilt now ended (record b { pending = awaited b t block.id }) (push_step t step)
        blocks h
        (push_step-IsOpen now t step k
          (tool_step_of-Span t.started_at ended block (omega (arith, k.began, l)))).0
        l

  open_or_new-IsBuilt :
      (now : ℕ) (b : Build) (target : Target)
      → IsBuilt now b
      → IsBuilt now (open_or_new b now target)
  open_or_new-IsBuilt now b target h =
      option_elim {B = Build} (IsBuilt now) b.turn (start_turn b now [] target) (λ t. b)
        (λ e. start_turn-IsBuilt b now [] target h.closed) (λ t e. h)

  take_answer-IsBuilt :
      (target : Target) (b : Build) (n : Normal A)
      → IsBuilt n.started_at b
      → n.started_at ≤ n.ended_at
      → IsBuilt n.started_at (take_answer describe signature target b n)
  unfolding take_answer
  take_answer-IsBuilt target b n h f =
      let b' = open_or_new b n.started_at target in
      let step = model_step_of describe signature n in
      let h' = open_or_new-IsBuilt n.started_at b target h in
      option_elim {B = Build} (IsBuilt n.started_at) b'.turn b'
        (λ t.
          push_tools describe signature n.ended_at b'
            (push_step (record t { usage = add_usage t.usage n.message.usage }) step)
            (tool_call_blocks n.message.content))
        (λ e. h')
        (λ t e.
          let o = IsBuilt-turn n.started_at b' t h' e in
          let counted = record t { usage = add_usage t.usage n.message.usage } in
          let o' : IsOpen n.started_at counted = record {
            runs = o.runs;
            began = o.began;
            few = o.few;
            spans = o.spans;
          } in
          push_tools-IsBuilt n.started_at n.ended_at b' (push_step counted step)
            (tool_call_blocks n.message.content) h'.closed
            (push_step-IsOpen n.started_at counted step o'
              (model_step_of-Span t.started_at n o.began f)).0
            f)

  take_prompt-IsBuilt :
      (target : Target) (b : Build) (n : Normal A)
      → IsBuilt n.started_at b
      → IsBuilt n.started_at (take_prompt describe signature target b n)
  unfolding take_prompt
  take_prompt-IsBuilt target b n h =
      start_turn-IsBuilt (finish (drop_idle b)) n.started_at
        (clamp_text (text_from_content n.message.content) 400) target
        (finish-IsBuilt n.started_at n.started_at (drop_idle b)
          (drop_idle-IsBuilt n.started_at b h)).0.closed

  take_result-IsBuilt :
      (now : ℕ) (b : Build) (n : Normal A)
      → IsBuilt now b
      → IsBuilt now (take_result describe signature b n)
  unfolding take_result
  take_result-IsBuilt now b n h =
      let id = or_option n.message.tool_call_id n.message.tool_call_id_snake in
      let text = clamp_text (text_from_content n.message.content) 140 in
      let error =
        if n.message.is_error
        then some (or_text (some text) (codes "tool call failed"))
        else none in
      let f = settle n.ended_at n.message.is_error error in
      let placed : Turn → ℕ → Build = λ t i. record b {
        turn = some (record t { steps = update_at i f t.steps });
        pending = without describe signature id b.pending;
      } in
      option_elim {B = Build} (IsBuilt now) b.turn b
        (λ t. elim (step_of describe signature b t id) [ none ↦ b | some i ↦ placed t i ]) (λ e. h)
        (λ t e.
          option_elim {B = Build} (IsBuilt now) (step_of describe signature b t id) b (placed t)
            (λ missing. h)
            (λ i found.
              let o = IsBuilt-turn now b t h e in
              let (spans, same) =
                update_at-Span t.started_at f i t.steps
                  (settle-Span t.started_at n.ended_at n.message.is_error error) o.spans in
              record {
                closed = h.closed;
                open_turn = record {
                  runs = o.runs;
                  began = o.began;
                  few = subst (λ l. l ≤ max_steps_per_turn) (sym same) o.few;
                  spans = spans;
                };
              }))

  take_entry-IsBuilt :
      (target : Target) (b : Build) (n : Normal A)
      → IsBuilt n.started_at b
      → n.started_at ≤ n.ended_at
      → IsBuilt n.started_at (take_entry describe signature target b n)
  unfolding take_entry
  take_entry-IsBuilt target b n h f = by_role (role_of n.role)
    where
      by_role :
          (r : Role)
          → IsBuilt n.started_at (elim r as (λ _. Build) [
            | prompt_role ↦ take_prompt describe signature target b n
            | assistant_role ↦ take_answer describe signature target b n
            | result_role ↦ take_result describe signature b n
            | other_role ↦ b
          ])
      by_role prompt_role = take_prompt-IsBuilt target b n h
      by_role assistant_role = take_answer-IsBuilt target b n h f
      by_role result_role = take_result-IsBuilt n.started_at b n h
      by_role other_role = h

  take_entries-IsBuilt :
      (target : Target) (now : ℕ) (b : Build) (ns : List (Normal A))
      → IsBuilt now b
      → Rising now ns
      → (later : ℕ) × IsBuilt later (take_entries describe signature target b ns)
  unfolding take_entries
  take_entries-IsBuilt target now b [] h r = (now, h)
  take_entries-IsBuilt target now b (n ∷ ns) h r =
      take_entries-IsBuilt target n.started_at (take_entry describe signature target b n) ns
        (take_entry-IsBuilt target b n (IsBuilt-later now n.started_at b r.0 h) r.1.0) r.1.1

  All-drop : (P : Turn → Type 0) (k : ℕ) (ts : List Turn) → All P ts → All P (drop k ts)
  All-drop P zero ts h = h
  All-drop P (suc k) [] h = h
  All-drop P (suc k) (t ∷ ts) h = All-drop P k ts h.1

  -- For every log, leaf, date parser and describer of arguments, and a limit of at least one turn: each turn
  -- that `buildTurnsFromEntries` returns is closed. It has an end no earlier than its start and is not
  -- running, it has at most 500 steps, and each step has ended, is not running, starts no earlier than
  -- the turn, and ends no earlier than it starts and no later than the turn. There are at most as many
  -- turns as the limit.
  pub build_turns_from_entries-IsClosed :
      (parse_date : Text → Option ℕ) (leaf_id : Option Text) (target : Target) (max_turns : ℕ)
      (entries : List (Entry A))
      → 1 ≤ max_turns
      → let turns =
          build_turns_from_entries describe signature parse_date leaf_id target max_turns entries in
        All IsClosed turns × (length turns ≤ max_turns)
  unfolding build_turns_from_entries turns_of_chain
  build_turns_from_entries-IsClosed parse_date leaf_id target zero entries l =
      absurd (omega (arith, l))
  build_turns_from_entries-IsClosed parse_date leaf_id target (suc limit) entries l =
      let chain = or_default (active_chain entries leaf_id) [] in
      let ns = normalized parse_date chain in
      let rising = sort_by_start-Rising ns (normalized-Forward parse_date chain) in
      let start : IsBuilt 0 new_build = record { closed = tt; open_turn = tt } in
      let b = take_entries describe signature target new_build (sort_by_start ns) in
      let (later, built) =
        take_entries-IsBuilt target 0 new_build (sort_by_start ns) start rising in
      let all = (finish-IsBuilt later later b built).0.closed in
      let turns = (finish b).turns in
      (
        All-drop IsClosed (length turns - suc limit) turns all,
        omega (arith, length-drop (length turns - suc limit) turns),
      )
