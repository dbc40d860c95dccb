-- ===== src/Session/TurnHistory/Examples.antt =====
-- A small log with an abandoned branch, and its turns (public/native/session/turn-history.js).
use picot.Base.{
  ℕ, ◌≤◌, String, ◌≡◌, refl, false, Option, none, some, List, [], ◌∷◌, map, arith, nat_eq,
  option_eq, Text, codes, text_beq, text_eq, is_space, trim_start, trim_end, trim, decimal, length,
  last, All, or_default,
}
use picot.JsMap.{get, set, delete}
use picot.Session.TurnHistory.{
  at_number, Block, Content, text_content, block_content, no_content, no_error, Message, Entry,
  squeeze, clamp_text, by_id, walk, active_chain,
}
use picot.Session.TurnHistory.Turns.{
  Status, ok, unfinished, unknown, Step, Target, Turn, no_usage, new_turn, push_step, latest_end,
  close_step, close_running, close_turn, last_open, update_at, finish, drop_idle,
}
use picot.Session.TurnHistory.Entries.{
  text_of_blocks, insert_by_start, sort_by_start, trimmed_string, role_of, to_epoch_ms,
  normalize_message, normalize_entry, normalized,
}
use picot.Session.TurnHistory.Closed.{IsClosed}
use picot.Session.TurnHistory.Chain.{active_chain_lem}
use picot.Session.TurnHistory.Branch.{parent_in, Rising, Stops, Distinct}
use picot.Session.TurnHistory.Bounded.{build_turns_from_entries-IsClosed}
use picot.Session.TurnHistory.Build.{
  settle, model_step_of, tool_step_of, push_tools, take_answer, take_prompt, step_of, take_result,
  take_entry, take_entries, turns_of_chain, build_turns_from_entries,
}

abbrev message : String → Content Text → ℕ → Message Text
message role content at = record {
  role = some (codes role);
  content = content;
  timestamp = at_number at;
  stop_reason = none;
  error_message = no_error;
  error = no_error;
  usage = no_usage;
  tool_call_id = some (codes "t1");
  tool_call_id_snake = none;
  is_error = false;
}

abbrev entry : String → Option Text → ℕ → Message Text → Entry Text
entry id parent_id at m = record {
  id = codes id;
  parent_id = parent_id;
  kind = codes "message";
  timestamp = at_number at;
  content = no_content;
  message = some m;
}

abbrev call : String → Block Text
call id = record {
  kind = codes "toolCall";
  text = none;
  name = some (codes "read");
  tool_name = none;
  arguments = none;
  args = none;
  input = none;
  id = some (codes id);
}

abbrev asked : Entry Text
asked = entry "a" none 10 (message "user" (text_content (codes "look")) 10)

abbrev abandoned : Entry Text
abandoned = entry "b" (some (codes "a")) 15 (message "assistant" no_content 12)

-- Two calls, of which one is answered.
abbrev answered : Entry Text
answered =
    entry "c" (some (codes "a")) 30
      (message "assistant" (block_content (call "t1" ∷ call "t2" ∷ [])) 20)

abbrev returned : Entry Text
returned = entry "d" (some (codes "c")) 50 (message "toolResult" no_content 40)

abbrev log : List (Entry Text)
log = asked ∷ abandoned ∷ answered ∷ returned ∷ []

abbrev nowhere : Target
nowhere = record { session_id = none; workspace_id = none; instance_id = none }

abbrev log_turns : List Turn
log_turns =
    build_turns_from_entries {A = Text} (λ o. or_default o []) (λ n o. n) (λ t. none)
      (some (codes "d")) nowhere 20 log

branch_taken : active_chain log (some (codes "d")) ≡ some (asked ∷ answered ∷ returned ∷ [])
unfolding active_chain by_id walk get set text_beq
branch_taken = refl

abbrev step_view : Step → Option ℕ × Status
step_view s = (s.ended_at, s.status)

abbrev turn_view : Turn → Option ℕ × (Status × List (Option ℕ × Status))
turn_view t = (t.ended_at, (t.status, map step_view t.steps))

abbrev answered_steps : List (Option ℕ × Status)
answered_steps = (some 30, ok) ∷ (some 50, ok) ∷ (some 50, unfinished) ∷ []

-- The second call has no result: its step is closed with the turn, and the turn's outcome is unknown.
log_turn : map turn_view log_turns ≡ (some 50, (unknown, answered_steps)) ∷ []
unfolding build_turns_from_entries turns_of_chain take_entries take_entry take_prompt take_answer
    take_result push_tools push_step tool_step_of model_step_of step_of settle update_at last_open
    finish drop_idle close_turn close_running close_step latest_end new_turn role_of normalized
    normalize_entry normalize_message to_epoch_ms sort_by_start insert_by_start text_of_blocks
    trimmed_string clamp_text squeeze active_chain by_id walk get set delete text_beq trim
    trim_start trim_end is_space decimal
log_turn = refl

active_chain_lem_example :
    (c : List (Entry Text)) × ((active_chain log (some (codes "d")) ≡ some c)
      × Rising (parent_in log) c
      × Stops (parent_in log) c
      × Distinct c
      × (last c ≡ some returned))
unfolding text_beq
active_chain_lem_example = active_chain_lem log (codes "d") returned refl refl

build_turns_from_entries-IsClosed_example : All IsClosed log_turns × (length log_turns ≤ 20)
build_turns_from_entries-IsClosed_example =
    build_turns_from_entries-IsClosed (λ o. or_default o []) (λ n o. n) (λ t. none)
      (some (codes "d")) nowhere 20 log (omega arith)
