-- ===== src/Session/TurnHistory/Turns.antt =====
-- `buildTurnsFromEntries` (public/native/session/turn-history.js). A turn that is open stands beside the
-- closed ones; `pending` points into its steps, by their positions.
use picot.Base.{
  ℕ, zero, suc, ◌+◌, ◌-◌, max, Bool, true, false, not, Option, none, some, List, [], ◌∷◌, ◌++◌, map,
  ltb, nat_beq, if◌then◌else◌, ◌==◌, nat_eq, option_eq, Text, codes, text_beq, text_eq, decimal,
  length, drop, find, any, or_default, is_some,
}
use picot.Session.TurnHistory.{Usage}

pub data Status : Type 0 where
  running ok errored aborted unfinished failed unknown completed : Status

pub data StepKind : Type 0 where
  model_step tool_step : StepKind

pub record Step : Type 0 where
  pub kind : StepKind
  pub label : Text
  pub detail : Text
  pub tool_names : List Text
  pub signature : Option Text
  pub tool_call_id : Option Text
  pub started_at : ℕ
  pub ended_at : Option ℕ
  pub duration_ms : Option ℕ
  pub status : Status
  pub error : Option Text
  pub stop_reason : Option Text

pub record Target : Type 0 where
  pub session_id : Option Text
  pub workspace_id : Option Text
  pub instance_id : Option Text

pub record Turn : Type 0 where
  pub id : Text
  pub index : ℕ
  pub target : Target
  pub prompt : Text
  pub started_at : ℕ
  pub ended_at : Option ℕ
  pub duration_ms : Option ℕ
  pub status : Status
  pub error : Option Text
  pub usage : Usage
  pub steps : List Step

abbrev pub max_steps_per_turn : ℕ
max_steps_per_turn = 500

abbrev pub no_usage : Usage
no_usage = record { input = 0; output = 0; cache_read = 0; cache_write = 0; cost = 0 }

unfoldable pub new_turn : ℕ → ℕ → Text → Target → Turn
unfolding decimal
new_turn index started prompt target = record {
  id = codes "history-" ++ decimal index;
  index = index;
  target = target;
  prompt = prompt;
  started_at = started;
  ended_at = none;
  duration_ms = none;
  status = running;
  error = none;
  usage = no_usage;
  steps = [];
}

-- `pushStep`, and whether the step was added.
abbrev pub room : Turn → Bool
room t = ltb (length t.steps) max_steps_per_turn

unfoldable pub push_step : Turn → Step → Turn
push_step t step = if room t then record t { steps = t.steps ++ step ∷ [] } else t

unfoldable pub latest_end : ℕ → List Step → ℕ
latest_end latest [] = latest
latest_end latest (s ∷ ss) = latest_end (max latest (or_default s.ended_at s.started_at)) ss

unfoldable pub close_step : ℕ → Step → Step
close_step ended s = if is_some s.ended_at then s else record s {
  ended_at = some ended;
  duration_ms = some (ended - s.started_at);
  status = unfinished;
}

abbrev pub is_failed : Step → Bool
is_failed s = elim s.kind [
  | model_step ↦ elim s.status [ errored ↦ true | _ ↦ false ]
  | tool_step ↦ false
]

abbrev pub is_aborted : Step → Bool
is_aborted s = s.stop_reason == some (codes "aborted")

abbrev pub is_unfinished : Step → Bool
is_unfinished s = elim s.status [ unfinished ↦ true | _ ↦ false ]

unfoldable pub close_running : Turn → Turn
unfolding latest_end close_step text_beq
close_running t =
    let ended = latest_end t.started_at t.steps in
    let steps = map (close_step ended) t.steps in
    let failed_step = find is_failed steps in
    record t {
      steps = steps;
      ended_at = some ended;
      duration_ms = some (ended - t.started_at);
      status =
          if is_some failed_step
          then failed
          else if any is_aborted steps
          then aborted
          else if any is_unfinished steps
          then unknown
          else completed;
      error = elim failed_step [ none ↦ none | some s ↦ s.error ];
    }

unfoldable pub close_turn : Turn → Turn
unfolding close_running
close_turn t = elim t.status [ running ↦ close_running t | _ ↦ t ]

abbrev pub add_usage : Usage → Usage → Usage
add_usage a b = record {
  input = a.input + b.input;
  output = a.output + b.output;
  cache_read = a.cache_read + b.cache_read;
  cache_write = a.cache_write + b.cache_write;
  cost = a.cost + b.cost;
}

abbrev pub is_open_tool : Step → Bool
is_open_tool s = elim s.kind [ model_step ↦ false | tool_step ↦ not (is_some s.ended_at) ]

-- The position of the last tool step without an end.
unfoldable pub last_open : List Step → Option ℕ
last_open [] = none
last_open (s ∷ ss) = elim (last_open ss) [
  | none ↦ if is_open_tool s then some 0 else none
  | some i ↦ some (suc i)
]

unfoldable pub update_at : ℕ → (Step → Step) → List Step → List Step
update_at i f [] = []
update_at zero f (s ∷ ss) = f s ∷ ss
update_at (suc i) f (s ∷ ss) = s ∷ update_at i f ss

-- What the loop over the messages carries.
pub record Build : Type 0 where
  pub turns : List Turn
  pub turn : Option Turn
  pub pending : List (Text × ℕ)
  pub index : ℕ

abbrev pub new_build : Build
new_build = record { turns = []; turn = none; pending = []; index = 0 }

unfoldable pub finish : Build → Build
unfolding close_turn
finish b = elim b.turn [
  | none ↦ b
  | some t ↦ record b { turns = b.turns ++ close_turn t ∷ []; turn = none; pending = [] }
]

-- An open turn without a step is dropped.
unfoldable pub drop_idle : Build → Build
drop_idle b = elim b.turn [
  | none ↦ b
  | some t ↦ if nat_beq (length t.steps) 0 then record b { turn = none; index = b.index - 1 } else b
]

abbrev pub start_turn : Build → ℕ → Text → Target → Build
start_turn b started prompt target = record b {
  index = suc b.index;
  turn = some (new_turn (suc b.index) started prompt target);
}

-- `slice(-maxTurns)`, which is the whole list for 0
abbrev pub last_turns : ℕ → List Turn → List Turn
last_turns zero ts = ts
last_turns (suc n) ts = drop (length ts - suc n) ts
