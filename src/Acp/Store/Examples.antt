-- ===== src/Acp/Store/Examples.antt =====
-- Runs of the reducer of an ACP card.
use picot.Base.{
  String, ◌≡◌, refl, none, some, List, [], ◌∷◌, ◌++◌, nat_eq, option_eq, codes, text_beq, text_eq,
  is_space, trim_start, trim_end, trim,
}
use picot.Acp.Store.{
  ToolUpdate, user, message, tool_call, AcpState, create_acp_state, as_message, agent_message_chunk,
  tool_call_started, Event, acp_session_update, reduce_acp_event, reduce_all, merge, pending_call,
  final_agent_text, apply_session_update, append_text_block, append_blocks, upsert_tool_call,
  upsert_blocks, scan_back,
}
use picot.Acp.Store.Chunks.{said, brought, chunks_kept}
use picot.Acp.Store.Tools.{calls, call_of, Unique, reached-Unique, call_of-reduce}

abbrev says : String → Event
says s = acp_session_update (agent_message_chunk (some (codes s)) (some (codes "m1")))

abbrev reads_file : ToolUpdate
reads_file = record {
  id = some (codes "t1");
  title = some (codes "Read");
  status = none;
  content = none;
  kind = none;
  raw_input = none;
  locations = none;
}

abbrev calls_tool : Event
calls_tool = acp_session_update (tool_call_started reads_file)

abbrev reply : List Event
reply = says "Let me look. " ∷ calls_tool ∷ says "It is" ∷ says " done. " ∷ []

reply_text : final_agent_text (reduce_all reply create_acp_state) ≡ codes "It is done."
unfolding final_agent_text reduce_all create_acp_state reduce_acp_event apply_session_update
    append_text_block append_blocks upsert_tool_call upsert_blocks scan_back trim trim_start
    trim_end is_space text_beq merge pending_call
reply_text = refl

chunks_kept_example :
    said as_message (reduce_all reply create_acp_state).blocks
    ≡ said as_message create_acp_state.blocks ++ brought as_message reply
chunks_kept_example = chunks_kept as_message reply create_acp_state

reached-Unique_example : Unique (calls (reduce_all reply create_acp_state).blocks)
reached-Unique_example = reached-Unique reply

call_of-reduce_example :
    call_of (codes "t1") (calls (reduce_acp_event calls_tool create_acp_state).blocks)
    ≡ some (merge reads_file (pending_call (codes "t1")))
unfolding merge text_beq create_acp_state pending_call call_of calls
call_of-reduce_example = call_of-reduce calls_tool (codes "t1") create_acp_state

-- The card after a prompt, a call and the answer.
abbrev answered : AcpState
answered = record {
  blocks =
      user (codes "look")
      ∷ tool_call (pending_call (codes "t1"))
      ∷ message (some (codes "m1")) (codes " ok ")
      ∷ [];
  permission_requests = [];
  error = none;
}
