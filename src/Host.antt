-- ===== src/Host.antt =====
-- The host's dispatcher (esp_hosted_open/src/phy_rpc.c): calls in flight, the API functions and the events.
pub mod Inflight
pub mod Api
pub mod Events
pub mod Refusals
pub mod Init
