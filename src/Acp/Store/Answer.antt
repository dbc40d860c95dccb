-- ===== src/Acp/Store/Answer.antt =====
-- The final answer of an ACP run: public/native/acp/acp-store.js (finalAgentText).
use picot.Base.{◌≡◌, Bool, true, false, List, nat_eq, option_eq, text_eq, All}
use picot.Acp.Store.{Block, user, message, thought, tool_call, plan}

-- A tool call or a prompt of the user ends the search for the answer.
abbrev pub breaks : Block → Bool
breaks (tool_call c) = true
breaks (user t) = true
breaks (message i t) = false
breaks (thought i t) = false
breaks (plan t) = false

abbrev pub Unbroken : List Block → Type 0
Unbroken = All (λ b. breaks b ≡ false)
