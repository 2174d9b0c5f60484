-- ===== src/Device2.antt =====
-- Device2_mqtt/main: the indoor device, an MQTT client with a thermometer and a socket.
pub mod Wifi
pub mod Mqtt
pub mod Main
pub mod Print
pub mod Pipeline
