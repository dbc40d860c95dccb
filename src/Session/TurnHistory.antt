-- ===== src/Session/TurnHistory.antt =====
-- The turns of a saved session log: public/native/session/turn-history.js. Times are milliseconds, as
-- natural numbers. `Date.parse` is a parameter, and so are the texts that turn-trace.js makes of a
-- tool call's arguments (`describeToolArgs`, `toolSignature`), whose type is a parameter too.
pub mod Branch
pub mod Chain
pub mod Turns
pub mod Entries
pub mod Build
pub mod Closed
pub mod Order
pub mod Open
pub mod Bounded
pub mod Examples
use mathlib.Core.List.{reverse}
use picot.Base.{
  ℕ, zero, suc, ◌+◌, ◌-◌, max, Bool, true, false, Option, none, some, List, [], ◌∷◌, ◌++◌, ltb,
  if◌then◌else◌, ◌==◌, nat_eq, option_eq, Text, text_beq, text_eq, is_space, trim, length, take,
  keep, any, truthy,
}
use picot.JsMap.{get, set, delete}

-- A time stamp in the log: a number, an ISO text, or none.
pub data Stamp : Type 0 where
  at_number : ℕ → Stamp
  at_text : Text → Stamp
  no_stamp : Stamp

-- A block of a message's content.
pub record Block (A : Type 0) : Type 0 where
  pub kind : Text
  pub text : Option Text
  pub name : Option Text
  pub tool_name : Option Text
  pub arguments : Option A
  pub args : Option A
  pub input : Option A
  pub id : Option Text

pub data Content (A : Type 0) : Type 0 where
  text_content : Text → Content A
  block_content : List (Block A) → Content A
  no_content : Content A

-- An error value: a text, an object with a message or without one, or nothing.
pub data ErrorValue : Type 0 where
  error_text : Text → ErrorValue
  error_object : Option Text → ErrorValue
  no_error : ErrorValue

-- The counters of an answer; what is no number counts as 0.
pub record Usage : Type 0 where
  pub input : ℕ
  pub output : ℕ
  pub cache_read : ℕ
  pub cache_write : ℕ
  pub cost : ℕ

pub record Message (A : Type 0) : Type 0 where
  pub role : Option Text
  pub content : Content A
  pub timestamp : Stamp
  pub stop_reason : Option Text
  pub error_message : ErrorValue
  pub error : ErrorValue
  pub usage : Usage
  pub tool_call_id : Option Text
  pub tool_call_id_snake : Option Text
  pub is_error : Bool

pub record Entry (A : Type 0) : Type 0 where
  pub id : Text
  pub parent_id : Option Text
  pub kind : Text
  pub timestamp : Stamp
  pub content : Content A
  pub message : Option (Message A)

-- Whitespace runs become one space.
unfoldable pub squeeze : Bool → Text → Text
unfolding is_space
squeeze after_space [] = []
squeeze after_space (c ∷ s) =
    let in_run = squeeze true s in
    let kept = c ∷ squeeze false s in
    if is_space c then (if after_space then in_run else 32 ∷ in_run) else kept

-- `clampText` of turn-trace.js
unfoldable pub clamp_text : Text → ℕ → Text
unfolding squeeze trim
clamp_text value max =
    let text = trim (squeeze false value) in
    if ltb max (length text) then take (max - 1) text ++ 0x2026 ∷ [] else text

module _ {A : Type 0} where
  -- `new Map(list.map((entry) => [entry.id, entry]))`
  unfoldable pub by_id : List (Text × Entry A) → List (Entry A) → List (Text × Entry A)
  by_id m [] = m
  by_id m (e ∷ es) = by_id (set e.id e m) es

  abbrev pub parent : List (Text × Entry A) → Entry A → Option (Entry A)
  parent m e = elim e.parent_id [ none ↦ none | some p ↦ if truthy p then get p m else none ]

  abbrev pub visited : Text → List (Entry A) → Bool
  visited id chain = any (λ e. e.id == id) chain

  -- The `while` of `activeChain`, which gives no chain when it runs out of fuel. The source adds at the
  -- end and reverses; here each entry is put in front.
  unfoldable pub walk :
      ℕ → List (Text × Entry A) → Option (Entry A) → List (Entry A) → Option (List (Entry A))
  unfolding get text_beq
  walk fuel m none chain = some chain
  walk zero m (some e) chain = none
  walk (suc fuel) m (some e) chain =
      let rest = walk fuel m (parent m e) (e ∷ chain) in
      if visited e.id chain then some chain else rest

  abbrev pub with_id : List (Entry A) → List (Entry A)
  with_id entries = keep (λ e. truthy e.id) entries

  -- The chain is at most as long as the list, which bounds the fuel.
  unfoldable pub active_chain : List (Entry A) → Option Text → Option (List (Entry A))
  unfolding walk by_id get text_beq
  active_chain entries none = some (with_id entries)
  active_chain entries (some leaf) =
      let list = with_id entries in
      let m = by_id [] list in
      if truthy leaf
      then elim (get leaf m) [ none ↦ some list | some e ↦ walk (suc (length list)) m (some e) [] ]
      else some list
