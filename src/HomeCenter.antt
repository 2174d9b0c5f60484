-- ===== src/HomeCenter.antt =====
-- HomeCenter/main: the gateway between the two devices and Thingsboard.
pub mod Types
pub mod Queue
pub mod Http
pub mod Wifi
pub mod Mqtt
pub mod Coap
pub mod Tasks
