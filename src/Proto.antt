-- ===== src/Proto.antt =====
-- The wire protocol that host and co-processor share (esp_hosted_open/include/phy_rpc_proto.h).
pub mod Ids
pub mod Distinct
