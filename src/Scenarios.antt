-- ===== src/Scenarios.antt =====
-- Concrete runs: the theorems at inputs that meet their hypotheses.
mod Pins
mod Thingsboard
mod Gateway
mod Tasks
mod Values
mod Thermostat
mod Switching
mod Network
mod Devices
mod Outdoor
mod Thermometer
mod Relay
mod Sock
