-- ===== src/Device1.antt =====
-- Device1_coap/main: the outdoor device, a CoAP server with a thermometer and a motor.
pub mod Server
pub mod Wifi
pub mod Main
