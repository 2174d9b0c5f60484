-- ===== src/Sensor/Convert.antt =====
-- Device1_coap/main/ds18b20.c: the request for a conversion, and the wait for its end.
-- `clock n` is what the n-th call of `esp_timer_get_time` gives, in microseconds.
pub mod Wait
use smart_home_project.Common.{
  ℕ, zero, suc, ◌+◌, ◌-◌, ◌/◌, ◌%◌, ◌^◌, Bool, ◌==◌, ltb, if◌then◌else◌,
}
use smart_home_project.Sensor.{Sensor, ds18b20_read, ds18b20_write_byte, ds18b20_reset}
use smart_home_project.Sensor.Temperature.{millis_to_wait_for_conversion}

-- `start`, an `unsigned long` of 32 bits.
abbrev pub start_of : ℕ → ℕ
start_of time = time / 1000 % 2 ^ 32

-- `(esp_timer_get_time() / 1000ULL) - start`, of 64 bits.
abbrev pub elapsed : ℕ → ℕ → ℕ
elapsed time start = (time / 1000 + 2 ^ 64 - start) % 2 ^ 64

-- The wait ended with so many calls of the clock, or the rounds that are allowed are used up.
pub data Conversion : Type 0 where
  ended unfinished : ℕ → Sensor → Conversion

module _ (gpio_get_level : ℕ → ℕ) where
  unfoldable pub is_conversion_complete : Sensor → Bool × Sensor
  is_conversion_complete s = let (b, t) = ds18b20_read gpio_get_level s in (b == 1, t)

  -- The loop, for a resolution: the rounds left, `start` and the calls of the clock made.
  unfoldable pub wait_conversion : (ℕ → ℕ) → ℕ → ℕ → ℕ → ℕ → Sensor → Conversion
  wait_conversion clock bit_resolution zero start calls s = unfinished calls s
  wait_conversion clock bit_resolution (suc rounds) start calls s =
      let (complete, t) = is_conversion_complete s in
      let rest = wait_conversion clock bit_resolution rounds start (calls + 1) t in
      if complete
      then ended calls t
      else if ltb (elapsed (clock calls) start) (millis_to_wait_for_conversion bit_resolution)
      then rest
      else ended (calls + 1) t

  -- SKIPROM and GETTEMP, and the wait.
  unfoldable pub ds18b20_request_temperatures : (ℕ → ℕ) → ℕ → ℕ → Sensor → Conversion
  ds18b20_request_temperatures clock bit_resolution rounds s =
      let (_, t) = ds18b20_reset gpio_get_level s in
      let converting = ds18b20_write_byte 68 (ds18b20_write_byte 204 t) in
      wait_conversion clock bit_resolution rounds (start_of (clock 0)) 1 converting
