-- ===== src/Control.antt =====
-- Request handlers of the co-processor that keep a state of their own (slave/main/slave_control.c).
pub mod Ota
pub mod Dispatch
pub mod Heartbeat
