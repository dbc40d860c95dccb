-- ===== src/Session/TurnHistory/Build.antt =====
-- The loop of `buildTurnsFromEntries` (public/native/session/turn-history.js), and `mergeTurnSources`.
use picot.Base.{
  ℕ, ◌-◌, min, max, Bool, true, ◌&&◌, Option, none, some, List, [], ◌∷◌, ◌++◌, map, ltb, nat_beq,
  if◌then◌else◌, ◌==◌, nat_eq, option_eq, Text, codes, text_beq, text_eq, length, keep, or_default,
  or_option, truthy, or_text,
}
use picot.JsMap.{get, set, delete}
use picot.Session.TurnHistory.Turns.{
  running, ok, errored, aborted, model_step, tool_step, Step, Target, Turn, new_turn, room,
  push_step, add_usage, last_open, update_at, Build, new_build, finish, drop_idle, start_turn,
  last_turns,
}
use picot.Session.TurnHistory.Entries.{
  Normal, text_from_content, tool_call_blocks, tool_call_name, tool_call_args, sort_by_start,
  trimmed_string, prompt_role, assistant_role, result_role, other_role, role_of, normalized,
}
use picot.Session.TurnHistory.{Block, Entry, clamp_text, active_chain}

-- A step that is asked for under an id is put into `pending`, at its position.
abbrev pub awaited : Build → Turn → Option Text → List (Text × ℕ)
awaited b t none = b.pending
awaited b t (some id) = if truthy id && room t then set id (length t.steps) b.pending else b.pending

abbrev pub open_or_new : Build → ℕ → Target → Build
open_or_new b started target = elim b.turn [ none ↦ start_turn b started [] target | some t ↦ b ]

unfoldable pub settle : ℕ → Bool → Option Text → Step → Step
settle ended is_error error s =
    let at = max s.started_at ended in
    record s {
      ended_at = some at;
      duration_ms = some (at - s.started_at);
      status = if is_error then errored else ok;
      error = error;
    }

module _ {A : Type 0} (describe : Option A → Text) (signature : Text → Option A → Text) where
  unfoldable pub model_step_of : Normal A → Step
  unfolding trimmed_string clamp_text text_beq
  model_step_of n =
      let m = n.message in
      let message =
        or_text (some (trimmed_string m.error_message))
          (or_text (some (trimmed_string m.error)) (codes "model request failed")) in
      let is_error = m.stop_reason == some (codes "error") in
      record {
        kind = model_step;
        label = codes "assistant";
        detail = clamp_text (text_from_content m.content) 140;
        tool_names = map tool_call_name (tool_call_blocks m.content);
        signature = none;
        tool_call_id = none;
        started_at = n.started_at;
        ended_at = some n.ended_at;
        duration_ms = some (n.ended_at - n.started_at);
        status =
            if is_error
            then errored
            else if m.stop_reason == some (codes "aborted")
            then aborted
            else ok;
        error = if is_error then some message else none;
        stop_reason = m.stop_reason;
      }

  unfoldable pub tool_step_of : ℕ → Block A → Step
  tool_step_of ended block = record {
    kind = tool_step;
    label = tool_call_name block;
    detail = describe (tool_call_args block);
    tool_names = [];
    signature = some (signature (tool_call_name block) (tool_call_args block));
    tool_call_id = block.id;
    started_at = ended;
    ended_at = none;
    duration_ms = none;
    status = running;
    error = none;
    stop_reason = none;
  }

  unfoldable pub push_tools : ℕ → Build → Turn → List (Block A) → Build
  unfolding push_step tool_step_of set text_beq
  push_tools ended b t [] = record b { turn = some t }
  push_tools ended b t (block ∷ blocks) =
      push_tools ended (record b { pending = awaited b t block.id })
        (push_step t (tool_step_of ended block)) blocks

  unfoldable pub take_answer : Target → Build → Normal A → Build
  unfolding model_step_of push_tools push_step new_turn
  take_answer target b n =
      let b' = open_or_new b n.started_at target in
      elim b'.turn [
        | none ↦ b'
        | some t ↦
            push_tools n.ended_at b'
              (push_step (record t { usage = add_usage t.usage n.message.usage }) (model_step_of n))
              (tool_call_blocks n.message.content)
      ]

  unfoldable pub take_prompt : Target → Build → Normal A → Build
  unfolding drop_idle finish new_turn clamp_text
  take_prompt target b n =
      start_turn (finish (drop_idle b)) n.started_at
        (clamp_text (text_from_content n.message.content) 400) target

  -- The step that a result belongs to: the one that waits under its id, or else the last open tool step.
  unfoldable pub step_of : Build → Turn → Option Text → Option ℕ
  unfolding get text_beq last_open
  step_of b t none = last_open t.steps
  step_of b t (some id) = or_option (get id b.pending) (last_open t.steps)

  abbrev pub without : Option Text → List (Text × ℕ) → List (Text × ℕ)
  without none pending = pending
  without (some id) pending = delete id pending

  unfoldable pub take_result : Build → Normal A → Build
  unfolding step_of settle update_at clamp_text delete text_beq
  take_result b n =
      let id = or_option n.message.tool_call_id n.message.tool_call_id_snake in
      let text = clamp_text (text_from_content n.message.content) 140 in
      let error =
        if n.message.is_error
        then some (or_text (some text) (codes "tool call failed"))
        else none in
      elim b.turn [
        | none ↦ b
        | some t ↦ elim (step_of b t id) [
          | none ↦ b
          | some i ↦ record b {
            turn = some (record t {
              steps = update_at i (settle n.ended_at n.message.is_error error) t.steps;
            });
            pending = without id b.pending;
          }
        ]
      ]

  unfoldable pub take_entry : Target → Build → Normal A → Build
  unfolding role_of take_prompt take_answer take_result
  take_entry target b n = elim (role_of n.role) [
    | prompt_role ↦ take_prompt target b n
    | assistant_role ↦ take_answer target b n
    | result_role ↦ take_result b n
    | other_role ↦ b
  ]

  unfoldable pub take_entries : Target → Build → List (Normal A) → Build
  unfolding take_entry
  take_entries target b [] = b
  take_entries target b (n ∷ ns) = take_entries target (take_entry target b n) ns

  unfoldable pub turns_of_chain : (Text → Option ℕ) → Target → ℕ → List (Entry A) → List Turn
  unfolding take_entries finish sort_by_start normalized
  turns_of_chain parse_date target max_turns chain =
      last_turns max_turns
        (finish (take_entries target new_build (sort_by_start (normalized parse_date chain)))).turns

  -- `active_chain` always gives a chain, so the default stands for none.
  unfoldable pub build_turns_from_entries :
      (Text → Option ℕ) → Option Text → Target → ℕ → List (Entry A) → List Turn
  unfolding turns_of_chain active_chain
  build_turns_from_entries parse_date leaf_id target max_turns entries =
      turns_of_chain parse_date target max_turns (or_default (active_chain entries leaf_id) [])

-- `live.reduce((earliest, turn) => Math.min(...), Infinity)`, where `none` is infinite
unfoldable pub live_from : Option ℕ → List Turn → Option ℕ
live_from earliest [] = earliest
live_from earliest (t ∷ ts) =
    live_from
      (if nat_beq t.started_at 0
        then earliest
        else some (elim earliest [ none ↦ t.started_at | some e ↦ min e t.started_at ]))
      ts

abbrev pub before : Option ℕ → Turn → Bool
before none t = true
before (some from) t = ltb (or_default t.ended_at t.started_at) from

unfoldable pub merge_turn_sources : List Turn → List Turn → List Turn
unfolding live_from
merge_turn_sources history [] = history
merge_turn_sources [] (l ∷ live) = l ∷ live
merge_turn_sources (h ∷ history) (l ∷ live) =
    keep (before (live_from none (l ∷ live))) (h ∷ history) ++ l ∷ live
