-- ===== src/Acp/Store.antt =====
-- The reducer from ACP notifications to card blocks: public/native/acp/acp-store.js.
-- A value that is only stored (titles, contents, plan entries, request parameters) is a text.
pub mod Chunks
pub mod Tools
pub mod Answer
pub mod Examples
use picot.Base.{
  ◌+◌, not, Option, none, some, List, [], ◌∷◌, ◌++◌, if◌then◌else◌, ◌==◌, nat_eq, option_eq, Text,
  codes, text_eq, trim, keep, last, init, or_default, or_option, truthy,
}
use mathlib.Core.List.{reverse}

pub record ToolCall : Type 0 where
  pub id : Text
  pub title : Option Text
  pub status : Option Text
  pub content : Option Text
  pub tool_kind : Option Text
  pub raw_input : Option Text
  pub locations : Option Text

pub data Block : Type 0 where
  user : Text → Block
  message thought : Option Text → Text → Block
  tool_call : ToolCall → Block
  plan : Text → Block

pub record Request : Type 0 where
  pub request_id : Text
  pub params : Text

pub record AcpState : Type 0 where
  pub blocks : List Block
  pub permission_requests : List Request
  pub error : Option Text

unfoldable pub create_acp_state : AcpState
create_acp_state = record { blocks = []; permission_requests = []; error = none }

pub data Kind : Type 0 where
  as_message as_thought : Kind

-- `{ kind, blockId, text }`
abbrev pub text_block : Kind → Option Text → Text → Block
text_block as_message = message
text_block as_thought = thought

-- The last block, extended, if it is of the kind and the block id of the chunk.
abbrev pub extend : Kind → Option Text → Text → Option Block → Option Block
extend as_message id t (some (message id' t')) =
    if id' == id then some (message id' (t' ++ t)) else none
extend as_thought id t (some (thought id' t')) =
    if id' == id then some (thought id' (t' ++ t)) else none
extend _ id t _ = none

unfoldable pub append_blocks : Kind → Option Text → Text → List Block → List Block
append_blocks k id t bs = elim (extend k id t (last bs)) [
  | none ↦ bs ++ text_block k id t ∷ []
  | some b ↦ init bs ++ b ∷ []
]

unfoldable pub append_text_block : Kind → Option Text → Option Text → AcpState → AcpState
append_text_block k content id s =
    let t = or_default content [] in
    if truthy t then record s { blocks = append_blocks k id t s.blocks } else s

unfoldable pub append_user_prompt : Option Text → AcpState → AcpState
append_user_prompt text s =
    let t = or_default text [] in
    if truthy t then record s { blocks = s.blocks ++ user t ∷ [] } else s

pub record ToolUpdate : Type 0 where
  pub id : Option Text
  pub title : Option Text
  pub status : Option Text
  pub content : Option Text
  pub kind : Option Text
  pub raw_input : Option Text
  pub locations : Option Text

unfoldable pub merge : ToolUpdate → ToolCall → ToolCall
merge u c = record {
  id = c.id;
  title = or_option u.title c.title;
  status = or_option u.status c.status;
  content = or_option u.content c.content;
  tool_kind = or_option u.kind c.tool_kind;
  raw_input = or_option u.raw_input c.raw_input;
  locations = or_option u.locations c.locations;
}

unfoldable pub pending_call : Text → ToolCall
pending_call id = record {
  id = id;
  title = none;
  status = some (codes "pending");
  content = none;
  tool_kind = none;
  raw_input = none;
  locations = none;
}

-- `findIndex`, and the update in place or the push.
unfoldable pub upsert_blocks : Text → ToolUpdate → List Block → List Block
upsert_blocks id u [] = tool_call (merge u (pending_call id)) ∷ []
upsert_blocks id u (tool_call c ∷ bs) =
    if c.id == id then tool_call (merge u c) ∷ bs else tool_call c ∷ upsert_blocks id u bs
upsert_blocks id u (user t ∷ bs) = user t ∷ upsert_blocks id u bs
upsert_blocks id u (message i t ∷ bs) = message i t ∷ upsert_blocks id u bs
upsert_blocks id u (thought i t ∷ bs) = thought i t ∷ upsert_blocks id u bs
upsert_blocks id u (plan t ∷ bs) = plan t ∷ upsert_blocks id u bs

unfoldable pub upsert_tool_call : ToolUpdate → AcpState → AcpState
upsert_tool_call u s =
    let id = or_default u.id [] in
    if truthy id then record s { blocks = upsert_blocks id u s.blocks } else s

pub data SessionUpdate : Type 0 where
  agent_message_chunk agent_thought_chunk : Option Text → Option Text → SessionUpdate
  tool_call_started tool_call_update : ToolUpdate → SessionUpdate
  planned : Option Text → SessionUpdate
  other_update : SessionUpdate

unfoldable pub apply_session_update : SessionUpdate → AcpState → AcpState
apply_session_update (agent_message_chunk content id) s = append_text_block as_message content id s
apply_session_update (agent_thought_chunk content id) s = append_text_block as_thought content id s
apply_session_update (tool_call_started u) s = upsert_tool_call u s
apply_session_update (tool_call_update u) s = upsert_tool_call u s
apply_session_update (planned entries) s = record s {
  blocks = s.blocks ++ plan (or_default entries []) ∷ [];
}
apply_session_update other_update s = s

pub data Event : Type 0 where
  acp_session_update : SessionUpdate → Event
  acp_permission_request : Text → Option Text → Event
  acp_error : Option Text → Event
  other_event : Event

abbrev pub default_error : Text
default_error = codes "ACP agent error"

unfoldable pub reduce_acp_event : Event → AcpState → AcpState
unfolding apply_session_update append_text_block upsert_tool_call
reduce_acp_event (acp_session_update u) s = apply_session_update u s
reduce_acp_event (acp_permission_request id params) s = record s {
  permission_requests =
      s.permission_requests ++ record { request_id = id; params = or_default params [] } ∷ [];
}
reduce_acp_event (acp_error m) s = record s { error = some (or_default m default_error) }
reduce_acp_event other_event s = s

unfoldable pub reduce_all : List Event → AcpState → AcpState
reduce_all [] s = s
reduce_all (e ∷ es) s = reduce_all es (reduce_acp_event e s)

unfoldable pub resolve_permission_request : Text → AcpState → AcpState
resolve_permission_request id s = record s {
  permission_requests = keep (λ r. not (r.request_id == id)) s.permission_requests;
}

abbrev pub message_texts : List Block → List Text
message_texts [] = []
message_texts (message i t ∷ bs) = t ∷ message_texts bs
message_texts (user t ∷ bs) = message_texts bs
message_texts (thought i t ∷ bs) = message_texts bs
message_texts (tool_call c ∷ bs) = message_texts bs
message_texts (plan t ∷ bs) = message_texts bs

-- `texts.join("")`
abbrev pub concat : List Text → Text
concat [] = []
concat (t ∷ ts) = t ++ concat ts

-- The loop of `finalAgentText`, on the blocks from the last one back.
unfoldable pub scan_back : List Block → List Text → List Text
scan_back [] found = found
scan_back (message i t ∷ bs) found = scan_back bs (t ∷ found)
scan_back (thought i t ∷ bs) found = scan_back bs found
scan_back (plan t ∷ bs) found = scan_back bs found
scan_back (tool_call c ∷ bs) found = found
scan_back (user t ∷ bs) found = found

abbrev pub or_texts : List Text → List Text → List Text
or_texts [] all = all
or_texts (t ∷ ts) all = t ∷ ts

unfoldable pub final_agent_text : AcpState → Text
unfolding scan_back
final_agent_text s =
    let tail = scan_back (reverse s.blocks) [] in
    trim (concat (or_texts tail (message_texts s.blocks)))
