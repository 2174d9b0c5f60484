-- ===== src/Sensor/Temperature.antt =====
-- Device1_coap/main/ds18b20.c: the signed temperature of a scratchpad, and the resolution.
pub mod Signed
pub mod Scratchpad
pub mod Resolution
use smart_home_project.Common.{
  ℕ, zero, suc, ◌+◌, ◌-◌, ◌*◌, ◌/◌, ◌%◌, ◌++◌, List, [], ◌∷◌, Bool, true, false, Bytes, get_or,
  ◌==◌, ltb, leb, if◌then◌else◌,
}
use smart_home_project.Sensor.{Sensor, ds18b20_is_connected, ds18b20_write_scratch_pad}

pub data ℤ : Type 0 where
  pos negsuc : ℕ → ℤ

-- A cast to `int16_t`.
abbrev pub int16 : ℕ → ℤ
int16 n = if ltb (n % 65536) 32768 then pos (n % 65536) else negsuc (65535 - n % 65536)

-- TEMP_MSB shifted by 11 and TEMP_LSB by 3, which share no bit.
unfoldable pub calculate_temperature : Bytes → ℤ
calculate_temperature pad = int16 (get_or pad 1 0 * 2048 + get_or pad 0 0 * 8)

-- A float: DEVICE_DISCONNECTED_F, or a number of parts of 128.
pub data Reading : Type 0 where
  device_disconnected_f : Reading
  over_128 : ℤ → Reading

-- `rawTemp <= DEVICE_DISCONNECTED_RAW`
abbrev pub is_disconnected_raw : ℤ → Bool
is_disconnected_raw (pos n) = false
is_disconnected_raw (negsuc n) = leb 7039 n

unfoldable pub reading_of : Bytes → Reading
unfolding calculate_temperature
reading_of pad =
    let raw = calculate_temperature pad in
    if is_disconnected_raw raw then device_disconnected_f else over_128 raw

-- What `ds18b20_getTempF` gives of `rawTemp`: DEVICE_DISCONNECTED_F, or the float that
-- `(float) rawTemp * 0.0140625f + 32.0f` rounds to, by `rawTemp`.
pub data ReadingF : Type 0 where
  disconnected_f : ReadingF
  fahrenheit_of : ℤ → ReadingF

unfoldable pub reading_f_of : Bytes → ReadingF
unfolding calculate_temperature
reading_f_of pad =
    let raw = calculate_temperature pad in
    if is_disconnected_raw raw then disconnected_f else fahrenheit_of raw

-- `constrain(newResolution, 9, 12)`
abbrev pub constrained : ℕ → ℕ
constrained n = if ltb n 9 then 9 else if ltb 12 n then 12 else n

-- TEMP_12_BIT to TEMP_9_BIT
abbrev pub configuration : ℕ → ℕ
configuration n = if n == 12 then 127 else if n == 11 then 95 else if n == 10 then 63 else 31

unfoldable pub millis_to_wait_for_conversion : ℕ → ℕ
millis_to_wait_for_conversion n =
    if n == 9 then 94 else if n == 10 then 188 else if n == 11 then 375 else 750

-- `pad[i] = b`
abbrev pub set_at : ℕ → ℕ → Bytes → Bytes
set_at i b [] = []
set_at zero b (p ∷ pad) = b ∷ pad
set_at (suc i) b (p ∷ pad) = p ∷ set_at i b pad

module _ (gpio_get_level : ℕ → ℕ) where
  -- The scratchpad begins as what the stack holds.
  unfoldable pub ds18b20_get_temp_c : Bytes → Bytes → Sensor → Reading × Sensor
  unfolding reading_of
  ds18b20_get_temp_c address pad s =
      let (connected, read, t) = ds18b20_is_connected gpio_get_level address pad s in
      ((if connected then reading_of read else device_disconnected_f), t)

  unfoldable pub ds18b20_get_temp_f : Bytes → Bytes → Sensor → ReadingF × Sensor
  unfolding reading_f_of
  ds18b20_get_temp_f address pad s =
      let (connected, read, t) = ds18b20_is_connected gpio_get_level address pad s in
      ((if connected then reading_f_of read else disconnected_f), t)

  -- A round of the loop of `ds18b20_setResolution`, with the value that the sensor is to hold:
  -- `success`, the scratchpad and the pin.
  unfoldable pub set_one : ℕ → Bytes → Bool × Bytes × Sensor → Bool × Bytes × Sensor
  set_one new_value address (success, pad, s) =
      let (connected, read, t) = ds18b20_is_connected gpio_get_level address pad s in
      let written = set_at 4 new_value read in
      if connected
      then (if get_or read 4 0 == new_value
          then (true, read, t)
          else (true, written, ds18b20_write_scratch_pad gpio_get_level address written t))
      else (success, read, t)

  unfoldable pub set_all : ℕ → List Bytes → Bool × Bytes × Sensor → Bool × Bytes × Sensor
  set_all new_value [] state = state
  set_all new_value (a ∷ addresses) state = set_all new_value addresses (set_one new_value a state)

  unfoldable pub ds18b20_set_resolution : List Bytes → ℕ → Bytes → Sensor → Bool × Sensor
  ds18b20_set_resolution addresses new_resolution pad s =
      let (success, _, t) =
        set_all (configuration (constrained new_resolution)) addresses (false, pad, s) in
      (success, t)
