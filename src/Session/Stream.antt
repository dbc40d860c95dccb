-- ===== src/Session/Stream.antt =====
-- Assembling the streamed answer: public/native/session/assistant-message-stream.js.
-- The content array is a list of cells, a hole being `none`. A value that is only copied (a tool
-- call, usage, what else a message holds) is a text. A message whose content is one string, and not
-- an array of blocks, is not modelled.
pub mod Cells
pub mod Examples
use picot.Base.{
  ℕ, zero, suc, ◌+◌, Bool, true, Option, none, some, List, [], ◌∷◌, ◌++◌, if◌then◌else◌, nat_eq,
  option_eq, Text, text_eq, or_default, or_option,
}

pub data Block : Type 0 where
  text thinking tool_call foreign : Text → Block

pub record Message : Type 0 where
  pub assistant : Bool
  pub content : List (Option Block)
  pub usage : Option Text
  pub rest : Text

pub data Delta : Type 0 where
  text_start thinking_start toolcall_start unknown : Delta
  text_delta thinking_delta : Option Text → Delta
  text_end thinking_end : Option Text → Delta
  toolcall_end : Option Block → Delta

-- An event: its delta with the content index, where the index is an integer of at least 0.
pub record Update : Type 0 where
  pub delta : Option (ℕ × Delta)
  pub usage : Option Text

unfoldable pub cell : ℕ → List (Option Block) → Option Block
cell i [] = none
cell zero (c ∷ cs) = c
cell (suc i) (c ∷ cs) = cell i cs

-- `content[index] = block`; a write past the end leaves holes.
unfoldable pub set_cell : ℕ → Block → List (Option Block) → List (Option Block)
set_cell zero b [] = some b ∷ []
set_cell (suc i) b [] = none ∷ set_cell i b []
set_cell zero b (c ∷ cs) = some b ∷ cs
set_cell (suc i) b (c ∷ cs) = c ∷ set_cell i b cs

-- The empty `toolCall` that `toolcall_start` puts into the array.
abbrev pub empty_call : Block
empty_call = tool_call []

-- `ensureBlock`: the text that the cell holds, if it is of the wanted kind.
abbrev pub text_of : Option Block → Text
text_of (some (text t)) = t
text_of _ = []

abbrev pub thinking_of : Option Block → Text
thinking_of (some (thinking t)) = t
thinking_of _ = []

abbrev pub ensured_call : Option Block → Block
ensured_call (some (tool_call t)) = tool_call t
ensured_call _ = empty_call

-- What a delta leaves in its cell; `none` where it writes nothing.
unfoldable pub apply_cell : Delta → Option Block → Option Block
apply_cell text_start c = some (text (text_of c))
apply_cell (text_delta d) c = some (text (text_of c ++ or_default d []))
apply_cell (text_end d) c = some (text (or_default d (text_of c)))
apply_cell thinking_start c = some (thinking (thinking_of c))
apply_cell (thinking_delta d) c = some (thinking (thinking_of c ++ or_default d []))
apply_cell (thinking_end d) c = some (thinking (or_default d (thinking_of c)))
apply_cell toolcall_start c = some (ensured_call c)
apply_cell (toolcall_end b) c = b
apply_cell unknown c = none

abbrev pub write : ℕ → Option Block → List (Option Block) → List (Option Block)
write i none cs = cs
write i (some b) cs = set_cell i b cs

unfoldable pub apply_delta : Message → Update → Message
apply_delta m u = elim u.delta [
  | none ↦ m
  | some (i, d) ↦ record m {
    content = write i (apply_cell d (cell i m.content)) m.content;
    usage = or_option u.usage m.usage;
  }
]

unfoldable pub empty_message : Message
empty_message = record { assistant = true; content = []; usage = none; rest = [] }

unfoldable pub clone_message : Option Message → Message
unfolding empty_message
clone_message none = empty_message
clone_message (some m) = if m.assistant then m else empty_message

-- The object that `createAssistantMessageStream` returns: its state is the message or null.
abbrev pub Stream : Type 0
Stream = Option Message

unfoldable pub start : Option Message → Stream → Stream × Message
start initial s = let m = clone_message initial in (some m, m)

unfoldable pub update : Update → Stream → Stream × Message
update u s = let m = apply_delta (or_default s empty_message) u in (some m, m)

unfoldable pub finish : Option Message → Stream → Stream × Message
finish final s = (none, clone_message (or_option final s))

unfoldable pub reset : Stream → Stream
reset s = none

unfoldable pub current : Stream → Option Message
current s = s

unfoldable pub update_all : List Update → Stream → Stream
update_all [] s = s
update_all (u ∷ us) s = update_all us (update u s).0
