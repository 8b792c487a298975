-- ===== src/Agent.antt =====
-- app/agent/loop.py: the hand-written agent loop. The children hold its data, one tool call, the
-- tool turn and the loop, and below them what is proved of each.
pub mod Value
pub mod Content
pub mod World
pub mod Dispatch
pub mod Turn
pub mod Loop
