-- ===== src/Scenarios/Pins.antt =====
-- The pin of a thermometer, for the runs of both devices.
use smart_home_project.Common.{ℕ, refl, [], ◌∷◌, get_or, arith}
use smart_home_project.Sensor.{Sensor}
use smart_home_project.Sensor.Temperature.{pos}
use smart_home_project.System.Thermometer.{Shows}

abbrev pub powered : Sensor
powered = record { init = 1; ds_gpio = 4; reads = 0; events = [] }

-- The pin of a device that answers both pulses and gives 402 sixteenths.
abbrev pub mild_pin : ℕ → ℕ
mild_pin n = get_or (0 ∷ 0 ∷ 0 ∷ 1 ∷ 0 ∷ 0 ∷ 1 ∷ 0 ∷ 0 ∷ 1 ∷ 1 ∷ 0 ∷ 0 ∷ 0 ∷ 0 ∷ 0 ∷ 0 ∷ 0 ∷ []) n 0

pub mild_pin-Shows : Shows mild_pin (pos 402) powered
mild_pin-Shows = record {
  initialised = refl;
  present = refl;
  low = omega arith;
  high = omega arith;
}
