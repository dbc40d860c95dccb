-- ===== src/Lib.antt =====
-- The core logic of the Picot frontend (public/), written in JavaScript, and of the chat inbox's
-- renderers (extensions/chat-inbox/render): what the frontend sends to the host and makes of the
-- answers, the state it keeps of sessions, agents, tasks, files and pins, the pure helpers that its
-- views rest on, and how an answer is shown in a chat.
--
-- The parts and their files:
--   Base, JsMap             texts as code units, `Map`, truthiness and `??` of the language, lists
--   Transport.Target        targets of a runtime, and public/session/bootstrap-target.js
--   Transport.Gateway       RuntimeGateway, public/native/transport/runtime-gateway.js; its adapter is
--                           the interface RuntimeAdapter (send, subscribeTarget)
--   Transport.Memory        createInMemoryRuntimeAdapter of the same file, an implementation of it
--   Transport.Adapter       HostRuntimeAdapter, public/native/transport/runtime-adapter.js, the
--                           implementation over a socket
--   Session.Store           public/native/session/session-store.js, with
--                           public/native/transport/runtime-frame-routing.js
--   Session.Stream          public/native/session/assistant-message-stream.js
--   Session.Pins            public/native/session/pinned-items.js
--   Session.TurnHistory     public/native/session/turn-history.js: the chain and the data; Entries, Turns
--                           and Build hold what the loop reads, keeps and does
--   Session.Compaction      public/compact-coordinator.js
--   Files.Tabs, Files.Data  public/file-tab-state.js
--   Acp.Store               public/native/acp/acp-store.js
--   Acp.RunStore            public/native/acp/subagent-store.js
--   Inbox.Task              the transitions of public/super-agent/task-state.js
--   Inbox.TaskStore         public/super-agent/task-store.js
--   Inbox.Prompt            the prompts of public/super-agent/task-state.js
--   Workspace.Patch         public/workspace/patch-utils.js
--   Workspace.Paths         public/workspace/path-utils.js
--   Extensions.UiHost       public/native/extensions/extension-ui-host.js
--   Navigation.Router       public/native/utils/router.js
--   Navigation.Bootstrap    public/native/transport/bootstrap-target.js
--   Navigation.Restoration  public/native/composer/model-restoration.js
--   Chat.Chunking           extensions/chat-inbox/render/chunking.ts
--   Chat.Markdown           extensions/chat-inbox/render/streaming-markdown.ts: its functions, and its
--                           class in Renderer
--   Chat.Preview            extensions/chat-inbox/render/streaming.ts; the chat service is the interface
--                           Transport, and its promises are the record Service
--
-- How they interact: the gateway sends frames through an adapter, which hands it the frames and the
-- connection changes that come back; frames without a waiting request go to listeners, which route
-- them to the session store. Prompts of extensions and events of ACP agents are such frames too.
--
-- The state of a class is a record, its methods and callbacks are functions on it, and a run is a
-- list of calls and callbacks in the order in which the event loop makes them. A function keeps the
-- name of the source in snake case. What the source does outside its own state is a list in the
-- order of its effects: frames, promises settled, listeners called, answers. A value that may be
-- missing is an Option; a thrown error is a value. Promises, listeners and dialogs are numbers.
-- Numbers are natural numbers without a bound, as the code counts far below the exact integers of
-- the language. Every loop is structural but two, which run on fuel: the pieces of a long line
-- (Chat.Chunking.split_line, as many steps as the line has units) and the walk up a branch
-- (Session.TurnHistory.walk, one step more than the log has entries). Both have a theorem that the
-- fuel is enough: the walk for every log, the pieces for a limit of at least 1, since for the limit
-- 0 the loop of the source does not end, and the model stands only for the limits above it. Values
-- that the code only carries (parameters, blocks, usages) are texts; a clone is the value itself.
--
-- Not modelled: the DOM, rendering, network and timers of the platform (events stand for what they
-- do), the JSON of stored values (the store keeps the value that the text denotes), the migration
-- of old favourites, the desktop host in Rust, vendored libraries and the other bundled extensions.
-- Parameters: `remend`, `Date.parse`, the chat service, the formatting for a service, and the texts
-- that turn-trace.js makes of a tool call's arguments.
pub mod Base
pub mod JsMap
pub mod Transport
pub mod Session
pub mod Acp
pub mod Inbox
pub mod Workspace
pub mod Extensions
pub mod Navigation
pub mod Chat
pub mod Files
