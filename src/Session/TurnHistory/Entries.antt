-- ===== src/Session/TurnHistory/Entries.antt =====
-- The entries of a log that `buildTurnsFromEntries` (public/native/session/turn-history.js) uses, in the
-- order of their start.
use picot.Base.{
  ℕ, max, Bool, false, ◌||◌, Option, none, some, List, [], ◌∷◌, ◌++◌, ltb, leb, if◌then◌else◌, ◌==◌,
  nat_eq, option_eq, Text, codes, text_beq, text_eq, trim, keep, or_default, or_option, truthy,
  truthy?, or_text,
}
use picot.Session.TurnHistory.Turns.{no_usage}
use picot.Session.TurnHistory.{
  Stamp, at_number, at_text, no_stamp, Block, Content, text_content, block_content, no_content,
  ErrorValue, error_text, error_object, no_error, Message, Entry,
}

-- An entry that can be used.
pub record Normal (A : Type 0) : Type 0 where
  pub role : Text
  pub message : Message A
  pub started_at : ℕ
  pub ended_at : ℕ

module _ {A : Type 0} where
  unfoldable pub text_of_blocks : List (Block A) → Text
  unfolding text_beq
  text_of_blocks [] = []
  text_of_blocks (b ∷ bs) =
      let rest = text_of_blocks bs in
      if b.kind == codes "text" then or_default b.text [] ++ rest else rest

  abbrev pub text_from_content : Content A → Text
  text_from_content (text_content t) = t
  text_from_content (block_content bs) = text_of_blocks bs
  text_from_content no_content = []

  abbrev pub is_tool_call : Block A → Bool
  is_tool_call b = (b.kind == codes "toolCall") || (b.kind == codes "tool_use")

  abbrev pub tool_call_blocks : Content A → List (Block A)
  tool_call_blocks (text_content t) = []
  tool_call_blocks (block_content bs) = keep is_tool_call bs
  tool_call_blocks no_content = []

  abbrev pub tool_call_name : Block A → Text
  tool_call_name b = or_text b.name (or_text b.tool_name (codes "tool"))

  abbrev pub tool_call_args : Block A → Option A
  tool_call_args b = or_option b.arguments (or_option b.args b.input)

  -- `.sort((a, b) => a.startedAt - b.startedAt)`, which is stable
  unfoldable pub insert_by_start : Normal A → List (Normal A) → List (Normal A)
  insert_by_start n [] = n ∷ []
  insert_by_start n (m ∷ ms) =
      let rest = insert_by_start n ms in
      if leb n.started_at m.started_at then n ∷ m ∷ ms else m ∷ rest

  unfoldable pub sort_by_start : List (Normal A) → List (Normal A)
  unfolding insert_by_start
  sort_by_start [] = []
  sort_by_start (n ∷ ns) = insert_by_start n (sort_by_start ns)

unfoldable pub trimmed_string : ErrorValue → Text
unfolding trim
trimmed_string (error_text t) = trim t
trimmed_string (error_object none) = []
trimmed_string (error_object (some t)) = trim t
trimmed_string no_error = []

-- Any role but that of an answer or a tool's result.
pub data Role : Type 0 where
  prompt_role assistant_role result_role other_role : Role

unfoldable pub role_of : Text → Role
unfolding text_beq
role_of role =
    if (role == codes "user") || (role == codes "prompt")
    then prompt_role
    else if role == codes "assistant"
    then assistant_role
    else if (role == codes "toolResult") || (role == codes "tool_result")
    then result_role
    else other_role

unfoldable pub to_epoch_ms : (Text → Option ℕ) → Stamp → Option ℕ
unfolding trim
to_epoch_ms parse_date (at_number n) = if ltb 0 n then some n else none
to_epoch_ms parse_date (at_text t) = if truthy (trim t) then parse_date t else none
to_epoch_ms parse_date no_stamp = none

module _ {A : Type 0} where
  abbrev pub prompt_message : Content A → Message A
  prompt_message content = record {
    role = none;
    content = content;
    timestamp = no_stamp;
    stop_reason = none;
    error_message = no_error;
    error = no_error;
    usage = no_usage;
    tool_call_id = none;
    tool_call_id_snake = none;
    is_error = false;
  }

module _ {A : Type 0} (parse_date : Text → Option ℕ) where
  unfoldable pub normalize_message : Entry A → Message A → Option (Normal A)
  unfolding to_epoch_ms
  normalize_message e m =
      let ended =
        or_option (to_epoch_ms parse_date e.timestamp) (to_epoch_ms parse_date m.timestamp) in
      let started = or_option (to_epoch_ms parse_date m.timestamp) ended in
      elim started [
        | none ↦ none
        | some s ↦ elim ended [
          | none ↦ none
          | some d ↦
              if truthy? m.role
              then some (record {
                role = or_default m.role [];
                message = m;
                started_at = s;
                ended_at = max s d;
              })
              else none
        ]
      ]

  unfoldable pub normalize_entry : Entry A → Option (Normal A)
  unfolding normalize_message text_beq
  normalize_entry e =
      let prompt : Option (Normal A) = elim (to_epoch_ms parse_date e.timestamp) [
        | none ↦ none
        | some at ↦ some (record {
          role = codes "prompt";
          message = prompt_message e.content;
          started_at = at;
          ended_at = at;
        })
      ] in
      let message : Option (Normal A) = elim e.message [
        | none ↦ none
        | some m ↦ normalize_message e m
      ] in
      if e.kind == codes "custom_message"
      then prompt
      else if e.kind == codes "message"
      then message
      else none

  unfoldable pub normalized : List (Entry A) → List (Normal A)
  unfolding normalize_entry
  normalized [] = []
  normalized (e ∷ es) = elim (normalize_entry e) [
    | none ↦ normalized es
    | some n ↦ n ∷ normalized es
  ]
