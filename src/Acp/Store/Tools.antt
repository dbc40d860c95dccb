-- ===== src/Acp/Store/Tools.antt =====
-- The tool calls of an ACP card: public/native/acp/acp-store.js (upsertToolCall).
use picot.Base.{
  or_option, ◌≡◌, refl, sym, ap, subst, ◌∙◌, ◌&&◌, Option, none, some, List, [], ◌∷◌, ◌++◌,
  append-nil, arith, if◌then◌else◌, ◌==◌, nat_eq, if-both, option_eq, Text, text_beq_iff, text_eq,
  or_default, truthy?,
}
use picot.Acp.Store.{
  Block, user, message, thought, tool_call, plan, ToolCall, ToolUpdate, merge, pending_call,
  AcpState, Kind, as_message, as_thought, append_blocks, append_text_block, upsert_blocks,
  upsert_tool_call, agent_message_chunk, agent_thought_chunk, tool_call_started, tool_call_update,
  planned, other_update, apply_session_update, Event, acp_session_update, acp_permission_request,
  acp_error, other_event, reduce_acp_event, reduce_all, create_acp_state,
}

-- The tool calls of the card, in their order.
unfoldable pub calls : List Block → List ToolCall
calls [] = []
calls (tool_call c ∷ bs) = c ∷ calls bs
calls (user t ∷ bs) = calls bs
calls (message i t ∷ bs) = calls bs
calls (thought i t ∷ bs) = calls bs
calls (plan t ∷ bs) = calls bs

-- The call with the id.
unfoldable pub call_of : Text → List ToolCall → Option ToolCall
call_of id [] = none
call_of id (c ∷ cs) = if c.id == id then some c else call_of id cs

-- Every id stands once.
abbrev pub Unique : List ToolCall → Type 0
Unique [] = Unit
Unique (c ∷ cs) = (call_of c.id cs ≡ none) × Unique cs

-- The calls after an update of `id`.
unfoldable pub updated : Text → ToolUpdate → List ToolCall → List ToolCall
updated id u [] = merge u (pending_call id) ∷ []
updated id u (c ∷ cs) = if c.id == id then merge u c ∷ cs else c ∷ updated id u cs

calls-upsert_blocks :
    (id : Text) (u : ToolUpdate) (bs : List Block)
    → calls (upsert_blocks id u bs) ≡ updated id u (calls bs)
unfolding calls upsert_blocks updated
calls-upsert_blocks id u [] = refl
calls-upsert_blocks id u (tool_call c ∷ bs) = ground (arith, calls-upsert_blocks id u bs)
calls-upsert_blocks id u (user t ∷ bs) = calls-upsert_blocks id u bs
calls-upsert_blocks id u (message i t ∷ bs) = calls-upsert_blocks id u bs
calls-upsert_blocks id u (thought i t ∷ bs) = calls-upsert_blocks id u bs
calls-upsert_blocks id u (plan t ∷ bs) = calls-upsert_blocks id u bs

merge-id : (u : ToolUpdate) (c : ToolCall) → (merge u c).id ≡ c.id
unfolding merge
merge-id u c = refl

pending-id : (id : Text) → (pending_call id).id ≡ id
unfolding pending_call
pending-id id = refl

call_of-cons :
    (j : Text) (c : ToolCall) (cs : List ToolCall)
    → call_of j (c ∷ cs) ≡ (if c.id == j then some c else call_of j cs)
unfolding call_of
call_of-cons j c cs = refl

call_of-updated :
    (id j : Text) (u : ToolUpdate) (cs : List ToolCall)
    → call_of j (updated id u cs) ≡ (
        if id == j
        then some (merge u (or_default (call_of id cs) (pending_call id)))
        else call_of j cs)
unfolding updated
call_of-updated id j u [] =
    call_of-cons j (merge u (pending_call id)) []
    ∙ unfold call_of in rw (merge-id u (pending_call id), pending-id id) refl
call_of-updated id j u (c ∷ cs) = ground (
  arith,
  call_of-cons j c cs,
  call_of-cons id c cs,
  call_of-cons j c (updated id u cs),
  call_of-cons j (merge u c) cs,
  merge-id u c,
  text_beq_iff c.id id,
  text_beq_iff c.id j,
  text_beq_iff id j,
  call_of-updated id j u cs,
)

updated-Unique :
    (id : Text) (u : ToolUpdate) (cs : List ToolCall) → Unique cs → Unique (updated id u cs)
unfolding updated
updated-Unique id u [] h = (unfold call_of in refl, tt)
updated-Unique id u (c ∷ cs) h = ground (
  arith,
  merge-id u c,
  text_beq_iff c.id id,
  text_beq_iff id c.id,
  call_of-updated id c.id u cs,
  updated-Unique id u cs h.1,
)

calls-append : (bs cs : List Block) → calls (bs ++ cs) ≡ calls bs ++ calls cs
unfolding calls
calls-append [] cs = refl
calls-append (tool_call c ∷ bs) cs = ap (◌∷◌ c) (calls-append bs cs)
calls-append (user t ∷ bs) cs = calls-append bs cs
calls-append (message i t ∷ bs) cs = calls-append bs cs
calls-append (thought i t ∷ bs) cs = calls-append bs cs
calls-append (plan t ∷ bs) cs = calls-append bs cs

append_blocks-cons :
    (k : Kind) (id : Option Text) (t : Text) (b c : Block) (bs : List Block)
    → append_blocks k id t (b ∷ c ∷ bs) ≡ b ∷ append_blocks k id t (c ∷ bs)
unfolding append_blocks
append_blocks-cons k id t b c bs = ground arith

calls-append_blocks :
    (k : Kind) (id : Option Text) (t : Text) (bs : List Block)
    → calls (append_blocks k id t bs) ≡ calls bs
unfolding calls append_blocks
calls-append_blocks as_message id t [] = refl
calls-append_blocks as_thought id t [] = refl
calls-append_blocks as_message id t (message i x ∷ []) = ground arith
calls-append_blocks as_thought id t (thought i x ∷ []) = ground arith
calls-append_blocks as_message id t (tool_call c ∷ []) = refl
calls-append_blocks as_thought id t (tool_call c ∷ []) = refl
calls-append_blocks as_message id t (b ∷ []) = refl
calls-append_blocks as_thought id t (b ∷ []) = refl
calls-append_blocks k id t (b ∷ c ∷ bs) =
    ap calls (append_blocks-cons k id t b c bs)
    ∙ calls-append (b ∷ []) (append_blocks k id t (c ∷ bs))
    ∙ ap (◌++◌ (calls (b ∷ []))) (calls-append_blocks k id t (c ∷ bs))
    ∙ sym (calls-append (b ∷ []) (c ∷ bs))

-- The update of a tool call that the event carries.
abbrev pub tool_update : Event → Option ToolUpdate
tool_update (acp_session_update (tool_call_started u)) = some u
tool_update (acp_session_update (tool_call_update u)) = some u
tool_update _ = none

abbrev pub calls_after : Option ToolUpdate → List ToolCall → List ToolCall
calls_after none cs = cs
calls_after (some u) cs = if truthy? u.id then updated (or_default u.id []) u cs else cs

calls-upsert_tool_call :
    (u : ToolUpdate) (s : AcpState)
    → calls (upsert_tool_call u s).blocks ≡ calls_after (some u) (calls s.blocks)
unfolding upsert_tool_call
calls-upsert_tool_call u s = ground (arith, calls-upsert_blocks (or_default u.id []) u s.blocks)

calls-append_text_block :
    (k : Kind) (content id : Option Text) (s : AcpState)
    → calls (append_text_block k content id s).blocks ≡ calls s.blocks
unfolding append_text_block
calls-append_text_block k content id s =
    ground (arith, calls-append_blocks k id (or_default content []) s.blocks)

calls-reduce :
    (e : Event) (s : AcpState)
    → calls (reduce_acp_event e s).blocks ≡ calls_after (tool_update e) (calls s.blocks)
unfolding reduce_acp_event apply_session_update calls
calls-reduce (acp_session_update (agent_message_chunk content id)) s =
    calls-append_text_block as_message content id s
calls-reduce (acp_session_update (agent_thought_chunk content id)) s =
    calls-append_text_block as_thought content id s
calls-reduce (acp_session_update (tool_call_started u)) s = calls-upsert_tool_call u s
calls-reduce (acp_session_update (tool_call_update u)) s = calls-upsert_tool_call u s
calls-reduce (acp_session_update (planned p)) s =
    calls-append s.blocks (plan (or_default p []) ∷ []) ∙ append-nil (calls s.blocks)
calls-reduce (acp_session_update other_update) s = refl
calls-reduce (acp_permission_request id p) s = refl
calls-reduce (acp_error m) s = refl
calls-reduce other_event s = refl

calls_after-Unique :
    (u : Option ToolUpdate) (cs : List ToolCall) → Unique cs → Unique (calls_after u cs)
calls_after-Unique none cs h = h
calls_after-Unique (some u) cs h =
    if-both Unique (truthy? u.id) _ _ (updated-Unique (or_default u.id []) u cs h) h

reduce_all-Unique :
    (es : List Event) (s : AcpState)
    → Unique (calls s.blocks)
    → Unique (calls (reduce_all es s).blocks)
unfolding reduce_all
reduce_all-Unique [] s h = h
reduce_all-Unique (e ∷ es) s h =
    reduce_all-Unique es (reduce_acp_event e s) (
      subst Unique (sym (calls-reduce e s)) (calls_after-Unique (tool_update e) (calls s.blocks) h))

-- After any events a card shows each tool call once: no two blocks have the same tool-call id.
pub reached-Unique : (es : List Event) → Unique (calls (reduce_all es create_acp_state).blocks)
unfolding create_acp_state calls
reached-Unique es = reduce_all-Unique es create_acp_state tt

-- For every event and every id: after an update of that id, the id finds the call that it found
-- before, or a pending one if it found none, with each field that the update carries in the place of
-- the call's and every other field kept; after any other event, an update of another id included, it finds what it found before.
pub call_of-reduce :
    (e : Event) (j : Text) (s : AcpState)
    → let before = calls s.blocks in
      call_of j (calls (reduce_acp_event e s).blocks) ≡ elim (tool_update e) [
        | none ↦ call_of j before
        | some u ↦
            let c = or_default (call_of j before) (pending_call j) in
            let merged : ToolCall = record {
              id = c.id;
              title = or_option u.title c.title;
              status = or_option u.status c.status;
              content = or_option u.content c.content;
              tool_kind = or_option u.kind c.tool_kind;
              raw_input = or_option u.raw_input c.raw_input;
              locations = or_option u.locations c.locations;
            } in
            if truthy? u.id && or_default u.id [] == j then some merged else call_of j before
      ]
unfolding merge
call_of-reduce e j s = ap (call_of j) (calls-reduce e s) ∙ after (tool_update e) (calls s.blocks)
  where
    after :
        (t : Option ToolUpdate) (cs : List ToolCall)
        → call_of j (calls_after t cs) ≡ elim t [
          | none ↦ call_of j cs
          | some u ↦
              if truthy? u.id && or_default u.id [] == j
              then some (merge u (or_default (call_of j cs) (pending_call j)))
              else call_of j cs
        ]
    after none cs = refl
    after (some u) cs =
        ground
          (arith, call_of-updated (or_default u.id []) j u cs, text_beq_iff (or_default u.id []) j)
