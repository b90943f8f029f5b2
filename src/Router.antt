-- ===== src/Router.antt =====
-- The packet router of the co-processor under network split (slave/main/nw_split_router.c).
pub mod Ports
pub mod Sockets
pub mod Route
pub mod Receive
