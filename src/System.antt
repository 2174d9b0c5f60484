-- ===== src/System.antt =====
-- The three programs together: what one sends is what the next receives.
pub mod Indoor
pub mod Outdoor
pub mod Gateway
pub mod Remote
pub mod Offline
pub mod Recovery
pub mod Network
pub mod Thermometer
pub mod Telemetry
pub mod Thermostat
pub mod Switching
pub mod Relay
pub mod Sock
