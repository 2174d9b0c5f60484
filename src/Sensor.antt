-- ===== src/Sensor.antt =====
-- Device1_coap/main/ds18b20.c, the driver of the thermometer, of which Device2_mqtt/main holds a
-- copy: the transfer of bits and bytes, the scratchpad with its CRC, the resolution and the
-- temperature.
-- The GPIO driver is a parameter: `gpio_get_level n` is the level that the n-th reading of the pin
-- gives. `events` records what is done to the pin. `char` is unsigned on this chip.
pub mod Transfer
pub mod Frames
pub mod Crc
pub mod Temperature
pub mod Search
pub mod Convert
use smart_home_project.Common.{
  ℕ, zero, suc, ◌+◌, ◌-◌, ◌*◌, ◌/◌, ◌%◌, ◌++◌, List, [], ◌∷◌, Bool, true, false, not, ◌&&◌, Bytes,
  u8, get_or, take, ◌==◌, ltb, leb, if◌then◌else◌,
}

-- What is done to the pin: its direction, its level, a delay in microseconds, or a reading.
pub data Event : Type 0 where
  output input get_level : Event
  set_level delay_us : ℕ → Event
  task_delay_ms : ℕ → Event
  pad_select_gpio : ℕ → Event

-- `init` and `DS_GPIO`, and the pin with the number of its readings.
pub record Sensor : Type 0 where
  pub init : ℕ
  pub ds_gpio : ℕ
  pub reads : ℕ
  pub events : List Event

abbrev pub emit : List Event → Sensor → Sensor
emit es s = record s { events = s.events ++ es }

unfoldable pub ds18b20_init : ℕ → Sensor → Sensor
ds18b20_init gpio s = record (emit (pad_select_gpio (u8 gpio) ∷ []) s) {
  init = 1;
  ds_gpio = u8 gpio;
}

-- The slot of a bit: the time that the bus is held low, and the rest.
abbrev pub write_slot : ℕ → List Event
write_slot bit =
    if bit % 2 == 1
    then output ∷ set_level 0 ∷ delay_us 6 ∷ input ∷ delay_us 64 ∷ []
    else output ∷ set_level 0 ∷ delay_us 60 ∷ input ∷ delay_us 10 ∷ []

unfoldable pub ds18b20_write : ℕ → Sensor → Sensor
ds18b20_write bit s = emit (write_slot bit) s

-- The rounds of the loop that are left, and the byte shifted by those before.
unfoldable pub write_bits : ℕ → ℕ → Sensor → Sensor
unfolding ds18b20_write
write_bits zero rest s = s
write_bits (suc n) rest s = write_bits n (rest / 2) (ds18b20_write (rest % 2) s)

unfoldable pub ds18b20_write_byte : ℕ → Sensor → Sensor
ds18b20_write_byte byte s = emit (delay_us 100 ∷ []) (write_bits 8 byte s)

unfoldable pub write_bytes : Bytes → Sensor → Sensor
write_bytes [] s = s
write_bytes (b ∷ bs) s = write_bytes bs (ds18b20_write_byte b s)

-- SELECTDEVICE, and the eight bytes of the address.
unfoldable pub ds18b20_select : Bytes → Sensor → Sensor
ds18b20_select address s = write_bytes (take 8 address) (ds18b20_write_byte 85 s)

module _ (gpio_get_level : ℕ → ℕ) where
  -- The level is what `gpio_get_level` gives, cut to a byte.
  unfoldable pub ds18b20_read : Sensor → ℕ × Sensor
  ds18b20_read s = (
    gpio_get_level s.reads % 256,
    record s {
      reads = s.reads + 1;
      events =
          s.events
          ++ (output
              ∷ set_level 0
              ∷ delay_us 6
              ∷ input
              ∷ delay_us 9
              ∷ get_level
              ∷ delay_us 55
              ∷ []);
    },
  )

  -- The rounds that are left, and the weight of the next bit.
  unfoldable pub read_bits : ℕ → ℕ → Sensor → ℕ × Sensor
  unfolding ds18b20_read
  read_bits zero weight s = (0, s)
  read_bits (suc n) weight s =
      let (bit, t) = ds18b20_read s in
      let (rest, u) = read_bits n (weight * 2) (emit (delay_us 15 ∷ []) t) in
      ((if bit == 0 then rest else weight + rest), u)

  unfoldable pub ds18b20_read_byte : Sensor → ℕ × Sensor
  ds18b20_read_byte s = read_bits 8 1 s

  -- 1 where a device holds the bus low after the pulse.
  unfoldable pub ds18b20_reset : Sensor → ℕ × Sensor
  ds18b20_reset s = (
    (if gpio_get_level s.reads == 0 then 1 else 0),
    record s {
      reads = s.reads + 1;
      events =
          s.events
          ++ (output
              ∷ set_level 0
              ∷ delay_us 480
              ∷ set_level 1
              ∷ input
              ∷ delay_us 70
              ∷ get_level
              ∷ delay_us 410
              ∷ []);
    },
  )

  unfoldable pub read_bytes : ℕ → Sensor → Bytes × Sensor
  read_bytes zero s = ([], s)
  read_bytes (suc n) s =
      let (b, t) = ds18b20_read_byte s in let (bs, u) = read_bytes n t in (b ∷ bs, u)

  -- WRITESCRATCH, with the alarm temperatures and the configuration of a scratchpad.
  unfoldable pub ds18b20_write_scratch_pad : Bytes → Bytes → Sensor → Sensor
  ds18b20_write_scratch_pad address pad s =
      let (_, t) = ds18b20_reset s in
      let u = ds18b20_write_byte 78 (ds18b20_select address t) in
      let v = write_bytes (get_or pad 2 0 ∷ get_or pad 3 0 ∷ get_or pad 4 0 ∷ []) u in
      (ds18b20_reset v).1

  -- READSCRATCH; on a failure at once the scratchpad is left as it was.
  unfoldable pub ds18b20_read_scratch_pad : Bytes → Bytes → Sensor → Bool × Bytes × Sensor
  ds18b20_read_scratch_pad address pad s =
      let (b, t) = ds18b20_reset s in
      let (bytes, u) = read_bytes 9 (ds18b20_write_byte 190 (ds18b20_select address t)) in
      let (c, v) = ds18b20_reset u in if b == 0 then (false, pad, t) else (c == 1, bytes, v)

-- `a ^ b`, on the lowest n bits.
unfoldable pub xor_bits : ℕ → ℕ → ℕ → ℕ
xor_bits zero a b = 0
xor_bits (suc n) a b = (a + b) % 2 + 2 * xor_bits n (a / 2) (b / 2)

abbrev pub dscrc2x16_table : Bytes
dscrc2x16_table =
    0 ∷ 94 ∷ 188 ∷ 226 ∷ 97 ∷ 63 ∷ 221 ∷ 131 ∷ 194 ∷ 156 ∷ 126 ∷ 32 ∷ 163 ∷ 253 ∷ 31 ∷ 65 ∷ 0 ∷ 157
    ∷ 35 ∷ 190 ∷ 70 ∷ 219 ∷ 101 ∷ 248 ∷ 140 ∷ 17 ∷ 175 ∷ 50 ∷ 202 ∷ 87 ∷ 233 ∷ 116 ∷ []

-- The new value of `crc` in a round, from `*addr ^ crc`.
unfoldable pub by_table : ℕ → ℕ
unfolding xor_bits
by_table x =
    xor_bits 8 (get_or dscrc2x16_table (x % 16) 0) (get_or dscrc2x16_table (16 + x / 16 % 16) 0)

unfoldable pub crc_loop : Bytes → ℕ → ℕ
unfolding by_table
crc_loop [] crc = crc
crc_loop (b ∷ bs) crc = crc_loop bs (by_table (xor_bits 8 b crc))

-- The callers give a length within the array.
unfoldable pub ds18b20_crc8 : Bytes → ℕ → ℕ
ds18b20_crc8 addr len = crc_loop (take len addr) 0

unfoldable pub ds18b20_is_all_zeros : Bytes → Bool
ds18b20_is_all_zeros [] = true
ds18b20_is_all_zeros (b ∷ pad) = let rest = ds18b20_is_all_zeros pad in (b == 0) && rest

-- The test of a scratchpad that was read.
unfoldable pub is_sound : Bytes → Bool
is_sound pad = not (ds18b20_is_all_zeros pad) && (ds18b20_crc8 pad 8 == get_or pad 8 0)

module _ (gpio_get_level : ℕ → ℕ) where
  unfoldable pub ds18b20_is_connected : Bytes → Bytes → Sensor → Bool × Bytes × Sensor
  ds18b20_is_connected address pad s =
      let (b, p, t) = ds18b20_read_scratch_pad gpio_get_level address pad s in
      (b && is_sound p, p, t)

  -- GETTEMP to all devices, the wait, and READSCRATCH.
  unfoldable pub convert_and_ask : Sensor → Sensor
  convert_and_ask t =
      let converting = ds18b20_write_byte 68 (ds18b20_write_byte 204 t) in
      let (_, u) = ds18b20_reset gpio_get_level (emit (task_delay_ms 750 ∷ []) converting) in
      ds18b20_write_byte 190 (ds18b20_write_byte 204 u)

  -- In sixteenths of a degree, 0 without a device.
  unfoldable pub ds18b20_get_temp : Sensor → ℕ × Sensor
  ds18b20_get_temp s =
      let (check, t) = ds18b20_reset gpio_get_level s in
      let (temp1, v) = ds18b20_read_byte gpio_get_level (convert_and_ask t) in
      let (temp2, w) = ds18b20_read_byte gpio_get_level v in
      let (_, x) = ds18b20_reset gpio_get_level w in
      if s.init == 1 then (if check == 1 then (temp1 + temp2 * 256, x) else (0, t)) else (0, s)
