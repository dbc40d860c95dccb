-- ===== src/Transport/Memory.antt =====
-- `createInMemoryRuntimeAdapter` of public/native/transport/runtime-gateway.js, with the one gateway
-- that listens to it: the adapter calls the gateway back when it receives, loses or regains the
-- connection.
use picot.Base.{
  Bool, true, false, Option, none, some, List, [], ◌∷◌, ◌++◌, if◌then◌else◌, nat_eq, option_eq,
  Text, text_eq,
}
use picot.Transport.Gateway.{
  OutFrame, InFrame, RuntimeAdapter, Gateway, Effect, receive_frame, change_connection,
}

pub record MemoryAdapter : Type 0 where
  pub connected : Bool
  pub sent : List (OutFrame × Text)

abbrev pub new_memory : MemoryAdapter
new_memory = record { connected = true; sent = [] }

abbrev pub send_memory : OutFrame → Text → MemoryAdapter → MemoryAdapter × Bool
send_memory frame id m =
    if m.connected then (record m { sent = m.sent ++ (frame, id) ∷ [] }, true) else (m, false)

-- It has no `subscribeTarget`.
abbrev pub memory_adapter : RuntimeAdapter
memory_adapter = record { State = MemoryAdapter; send = send_memory; subscribe_target = λ t m. m }

abbrev pub take_sent : MemoryAdapter → Option (OutFrame × Text) × MemoryAdapter
take_sent m = elim m.sent [ [] ↦ (none, m) | f ∷ fs ↦ (some f, record m { sent = fs }) ]

abbrev pub receive_memory : InFrame → Gateway memory_adapter → Gateway memory_adapter × List Effect
receive_memory f g = receive_frame f g

abbrev pub connect_memory : Bool → Gateway memory_adapter → Gateway memory_adapter × List Effect
connect_memory up g =
    change_connection up (record g { adapter = record (g.adapter) { connected = up } })
