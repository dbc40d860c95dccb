-- ===== src/Chat.antt =====
-- The chat inbox (extensions/chat-inbox): what it shows in a chat service.
pub mod Chunking
pub mod Markdown
pub mod Preview
