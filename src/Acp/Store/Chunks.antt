-- ===== src/Acp/Store/Chunks.antt =====
-- The streamed text of an ACP card is the chunks, joined: public/native/acp/acp-store.js.
use picot.Base.{
  ◌≡◌, refl, sym, ap, ◌∙◌, Bool, true, false, Option, List, [], ◌∷◌, ◌++◌, append_assoc, append-nil,
  arith, if◌then◌else◌, nat_eq, option_eq, Text, text_eq, or_default,
}
use picot.Acp.Store.{
  Block, user, message, thought, tool_call, plan, AcpState, Kind, as_message, as_thought,
  append_blocks, append_text_block, upsert_blocks, upsert_tool_call, agent_message_chunk,
  agent_thought_chunk, tool_call_started, tool_call_update, planned, apply_session_update, Event,
  acp_session_update, reduce_acp_event, reduce_all, ToolUpdate,
}

-- What a block says in the kind.
abbrev pub says : Kind → Block → Text
says as_message (message i t) = t
says as_thought (thought i t) = t
says as_message _ = []
says as_thought _ = []

-- What the blocks say in the kind, joined.
unfoldable pub said : Kind → List Block → Text
said k [] = []
said k (b ∷ bs) = says k b ++ said k bs

abbrev same_kind : Kind → Kind → Bool
same_kind as_message as_message = true
same_kind as_thought as_thought = true
same_kind as_message as_thought = false
same_kind as_thought as_message = false

said-append : (k : Kind) (bs cs : List Block) → said k (bs ++ cs) ≡ said k bs ++ said k cs
unfolding said
said-append k [] cs = refl
said-append k (b ∷ bs) cs =
    rw (said-append k bs cs) (sym (append_assoc (says k b) (said k bs) (said k cs)))

append_blocks-cons :
    (k : Kind) (id : Option Text) (t : Text) (b c : Block) (bs : List Block)
    → append_blocks k id t (b ∷ c ∷ bs) ≡ b ∷ append_blocks k id t (c ∷ bs)
unfolding append_blocks
append_blocks-cons k id t b c bs = ground arith

append_blocks-one :
    (j k : Kind) (id : Option Text) (t : Text) (b : Block)
    → said j (append_blocks k id t (b ∷ [])) ≡ says j b ++ (if same_kind j k then t else [])
unfolding append_blocks said
append_blocks-one as_message as_message id t (message i x) =
    ground (arith, append-nil t, append-nil (x ++ t))
append_blocks-one as_thought as_thought id t (thought i x) =
    ground (arith, append-nil t, append-nil (x ++ t))
append_blocks-one as_thought as_message id t (message i x) = ground arith
append_blocks-one as_message as_thought id t (thought i x) = ground arith
append_blocks-one as_message k id t b = ground (arith, append-nil t, append-nil (says as_message b))
append_blocks-one as_thought k id t b = ground (arith, append-nil t, append-nil (says as_thought b))

said-append_blocks :
    (j k : Kind) (id : Option Text) (t : Text) (bs : List Block)
    → said j (append_blocks k id t bs) ≡ said j bs ++ (if same_kind j k then t else [])
unfolding said
said-append_blocks j k id t [] = unfold append_blocks in ground (arith, append-nil t)
said-append_blocks j k id t (b ∷ []) =
    append_blocks-one j k id t b
    ∙ ap (λ x. x ++ (if same_kind j k then t else [])) (sym (append-nil (says j b)))
said-append_blocks j k id t (b ∷ c ∷ bs) = rw (append_blocks-cons k id t b c bs) (
    rw (said-append_blocks j k id t (c ∷ bs))
      (sym (append_assoc (says j b) (said j (c ∷ bs)) (if same_kind j k then t else []))))

said-upsert_blocks :
    (j : Kind) (id : Text) (u : ToolUpdate) (bs : List Block)
    → said j (upsert_blocks id u bs) ≡ said j bs
unfolding said upsert_blocks
said-upsert_blocks j id u [] = ground arith
said-upsert_blocks j id u (tool_call c ∷ bs) = ground (arith, said-upsert_blocks j id u bs)
said-upsert_blocks j id u (user t ∷ bs) = ap (◌++◌ (says j (user t))) (said-upsert_blocks j id u bs)
said-upsert_blocks j id u (message i t ∷ bs) =
    ap (◌++◌ (says j (message i t))) (said-upsert_blocks j id u bs)
said-upsert_blocks j id u (thought i t ∷ bs) =
    ap (◌++◌ (says j (thought i t))) (said-upsert_blocks j id u bs)
said-upsert_blocks j id u (plan t ∷ bs) = ap (◌++◌ (says j (plan t))) (said-upsert_blocks j id u bs)

-- The text of the kind that an event brings.
abbrev pub brings : Kind → Event → Text
brings as_message (acp_session_update (agent_message_chunk content id)) = or_default content []
brings as_thought (acp_session_update (agent_thought_chunk content id)) = or_default content []
brings as_message _ = []
brings as_thought _ = []

pub brought : Kind → List Event → Text
brought k [] = []
brought k (e ∷ es) = brings k e ++ brought k es

said-append_text_block :
    (j k : Kind) (content id : Option Text) (s : AcpState)
    → said j (append_text_block k content id s).blocks
      ≡ said j s.blocks ++ (if same_kind j k then or_default content [] else [])
unfolding append_text_block
said-append_text_block j k content id s = ground (
  arith,
  said-append_blocks j k id (or_default content []) s.blocks,
  append-nil (said j s.blocks),
)

said-upsert_tool_call :
    (j : Kind) (u : ToolUpdate) (s : AcpState)
    → said j (upsert_tool_call u s).blocks ≡ said j s.blocks ++ []
unfolding upsert_tool_call
said-upsert_tool_call j u s =
    ground
      (arith, said-upsert_blocks j (or_default u.id []) u s.blocks, append-nil (said j s.blocks))

said-reduce :
    (j : Kind) (e : Event) (s : AcpState)
    → said j (reduce_acp_event e s).blocks ≡ said j s.blocks ++ brings j e
unfolding reduce_acp_event apply_session_update said
said-reduce as_message (acp_session_update (agent_message_chunk content id)) s =
    said-append_text_block as_message as_message content id s
said-reduce as_thought (acp_session_update (agent_message_chunk content id)) s =
    said-append_text_block as_thought as_message content id s
said-reduce as_message (acp_session_update (agent_thought_chunk content id)) s =
    said-append_text_block as_message as_thought content id s
said-reduce as_thought (acp_session_update (agent_thought_chunk content id)) s =
    said-append_text_block as_thought as_thought content id s
said-reduce as_message (acp_session_update (tool_call_started u)) s =
    said-upsert_tool_call as_message u s
said-reduce as_thought (acp_session_update (tool_call_started u)) s =
    said-upsert_tool_call as_thought u s
said-reduce as_message (acp_session_update (tool_call_update u)) s =
    said-upsert_tool_call as_message u s
said-reduce as_thought (acp_session_update (tool_call_update u)) s =
    said-upsert_tool_call as_thought u s
said-reduce as_message (acp_session_update (planned p)) s =
    said-append as_message s.blocks (plan (or_default p []) ∷ [])
said-reduce as_thought (acp_session_update (planned p)) s =
    said-append as_thought s.blocks (plan (or_default p []) ∷ [])
said-reduce as_message e s = sym (append-nil (said as_message s.blocks))
said-reduce as_thought e s = sym (append-nil (said as_thought s.blocks))

-- Over any events, what the card's message blocks say, joined, is what they said before followed by
-- the text of each message chunk in its order, and so for its thought blocks: chunks are neither
-- lost, repeated nor reordered, however they are divided into blocks and whatever comes between.
pub chunks_kept :
    (k : Kind) (es : List Event) (s : AcpState)
    → said k (reduce_all es s).blocks ≡ said k s.blocks ++ brought k es
unfolding reduce_all brought
chunks_kept k [] s = sym (append-nil (said k s.blocks))
chunks_kept k (e ∷ es) s =
    chunks_kept k es (reduce_acp_event e s)
    ∙ ap (λ x. x ++ brought k es) (said-reduce k e s)
    ∙ append_assoc (said k s.blocks) (brings k e) (brought k es)
