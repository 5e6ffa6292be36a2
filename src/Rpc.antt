-- ===== src/Rpc.antt =====
-- The JSON-RPC client of the two front ends: web/js/rpc-client.js and web/client/js/rpc-client.js.
-- The two files agree but for `connect`, `call` and `handleReconnect`.
pub mod State
pub mod Emitter
pub mod Pending
pub mod Core
pub mod Invariant
pub mod Answers
pub mod Web
pub mod Monitor
pub mod Draining
pub mod Agreement
pub mod Upheld
pub mod Params
pub mod Notices
pub mod Frames
