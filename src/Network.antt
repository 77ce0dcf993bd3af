-- ===== src/Network.antt =====
-- The network status: main/network_manager.c, main/network_layer.c, and the types of their headers.
pub mod Manager
pub mod Layer
mod Tests

-- network_status_t.
pub data NetworkStatus : Type 0 where
  disconnected connecting connected error : NetworkStatus
