-- ===== src/WebSocket.antt =====
-- The WebSocket client of main/websocket.
pub mod Frame
pub mod Client
pub mod Handshake
pub mod Ssl
