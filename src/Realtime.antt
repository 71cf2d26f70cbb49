-- ===== src/Realtime.antt =====
-- The hooks of web/src/hooks that keep a WebSocket: useRealtime.ts and useQueryRealtime.ts. The
-- browser's side (sockets, timers) is the `Wire`; each hook's handlers are functions on its state.
pub mod Wire
pub mod Channels
pub mod Query
pub mod Stream
mod Tests
