-- ===== src/Sensor/Search.antt =====
-- Device1_coap/main/ds18b20.c: `search` and `reset_search`, the search for the devices on the bus.
pub mod Places
pub mod Bounds
pub mod Merge
pub mod Single
pub mod Found
use smart_home_project.Common.{
  ℕ, zero, suc, ◌+◌, ◌-◌, ◌*◌, ◌/◌, ◌%◌, ◌++◌, List, [], ◌∷◌, Bool, true, false, not, ◌&&◌, ◌||◌,
  Bytes, Result, ok, fault, ◌>>=◌, read, replicate, ◌==◌, ltb, if◌then◌else◌,
}
use smart_home_project.Sensor.{
  Sensor, ds18b20_write, ds18b20_write_byte, ds18b20_read, ds18b20_reset,
}

-- `devices`, `ROM_NO`, the marks of the search, and the pin.
pub record Search : Type 0 where
  pub devices : ℕ
  pub rom_no : Bytes
  pub last_discrepancy : ℕ
  pub last_family_discrepancy : ℕ
  pub last_device_flag : Bool
  pub sensor : Sensor

unfoldable pub reset_search : Search → Search
reset_search s = record s {
  devices = 0;
  rom_no = replicate 8 0;
  last_discrepancy = 0;
  last_family_discrepancy = 0;
  last_device_flag = false;
}

-- The variables of a search: `rom_byte_mask` is 2 to the power of `bit_index`.
pub record Cursor : Type 0 where
  pub id_bit_number : ℕ
  pub last_zero : ℕ
  pub rom_byte_number : ℕ
  pub rom_byte_mask : ℕ

-- `b & mask`, for a mask of one bit.
abbrev pub has_bit : ℕ → ℕ → Bool
has_bit b mask = if mask == 0 then false else b / mask % 2 == 1

abbrev pub with_bit : ℕ → ℕ → ℕ → ℕ
with_bit b mask direction =
    if direction == 1
    then (if has_bit b mask then b else b + mask)
    else (if has_bit b mask then b - mask else b)

-- `ROM_NO[i] = b`
abbrev pub store : ℕ → ℕ → Bytes → Result Bytes
store i b [] = fault
store zero b (x ∷ xs) = ok (b ∷ xs)
store (suc i) b (x ∷ xs) = store i b xs >>= (λ ys. ok (x ∷ ys))

-- The direction where devices answer both ways.
abbrev pub at_discrepancy : Cursor → Search → Result ℕ
at_discrepancy c s =
    if ltb c.id_bit_number s.last_discrepancy
    then (do b ← read s.rom_no c.rom_byte_number; ok (if has_bit b c.rom_byte_mask then 1 else 0))
    else ok (if c.id_bit_number == s.last_discrepancy then 1 else 0)

-- The marks after the direction at a discrepancy.
abbrev pub mark_zero : ℕ → Cursor → Search → Cursor × Search
mark_zero direction c s =
    if direction == 0
    then (
      record c { last_zero = c.id_bit_number },
      if ltb c.id_bit_number 9 then record s { last_family_discrepancy = c.id_bit_number } else s,
    )
    else (c, s)

-- The next bit, and the next byte after the eighth.
abbrev pub advance : Cursor → Cursor
advance c =
    let mask = c.rom_byte_mask * 2 % 256 in
    record c {
      id_bit_number = (c.id_bit_number + 1) % 256;
      rom_byte_number = if mask == 0 then (c.rom_byte_number + 1) % 256 else c.rom_byte_number;
      rom_byte_mask = if mask == 0 then 1 else mask;
    }

-- What follows the choice of the direction.
unfoldable pub take_direction : ℕ → Cursor → Search → Result (Cursor × Search)
take_direction direction c s = do
  b ← read s.rom_no c.rom_byte_number
  rom ← store c.rom_byte_number (with_bit b c.rom_byte_mask direction) s.rom_no
  ok (advance c, record s { rom_no = rom; sensor = ds18b20_write direction s.sensor })

-- A round ends the loop, where no device answers, or goes on to the next bit.
pub data Step : Type 0 where
  broke went : Cursor × Search → Step

-- What the programs keep of a loop; `unfinished` where the rounds that are allowed are used up.
pub data Looped : Type 0 where
  finished unfinished : Cursor × Search → Looped

abbrev pub start : Cursor
start = record { id_bit_number = 1; last_zero = 0; rom_byte_number = 0; rom_byte_mask = 1 }

abbrev pub at_same : Cursor → Search → Result (Cursor × Search)
at_same c s = do
  direction ← at_discrepancy c s
  let (d, t) = mark_zero direction c s
  take_direction direction d t

-- `while (rom_byte_number < 8)`, with the rest of the loop.
abbrev pub after_step : Step → (Cursor × Search → Result Looped) → Result Looped
after_step (broke x) next = ok (finished x)
after_step (went x) next = if ltb (x.0).rom_byte_number 8 then next x else ok (finished x)

-- What follows the loop: whether a device was found, and the search for the next call.
unfoldable pub conclude : Bool → Search → Bool × Search
conclude found s =
    if not found || (elim s.rom_no [ [] ↦ true | b ∷ bs ↦ b == 0 ])
    then (
      false,
      record s {
        devices = 0;
        last_discrepancy = 0;
        last_device_flag = false;
        last_family_discrepancy = 0;
      },
    )
    else (true, record s { devices = (s.devices + 1) % 256 })

abbrev pub after_loop : Looped → Bool × Search
after_loop (unfinished (c, s)) = (false, s)
after_loop (finished (c, s)) =
    if ltb c.id_bit_number 65
    then conclude false s
    else conclude true (record s {
      last_discrepancy = c.last_zero;
      last_device_flag = if c.last_zero == 0 then true else s.last_device_flag;
    })

-- A round, on the bit and its complement that were read.
abbrev pub on_bits : ℕ → ℕ → Cursor → Search → Result Step
on_bits id_bit cmp_id_bit c s =
    if (id_bit == 1) && (cmp_id_bit == 1)
    then ok (broke (c, s))
    else (if id_bit == cmp_id_bit then at_same c s else take_direction id_bit c s)
      >>= (λ x. ok (went x))

module _ (gpio_get_level : ℕ → ℕ) where
  unfoldable pub search_round : Cursor × Search → Result Step
  search_round (c, s) =
      let (id_bit, t) = ds18b20_read gpio_get_level s.sensor in
      let (cmp_id_bit, u) = ds18b20_read gpio_get_level t in
      on_bits id_bit cmp_id_bit c (record s { sensor = u })

  unfoldable pub search_loop : ℕ → Cursor × Search → Result Looped
  search_loop zero x = ok (unfinished x)
  search_loop (suc rounds) x = search_round x >>= (λ step. after_step step (search_loop rounds))

  -- The 64 rounds are one for each bit of a ROM number. On success `newAddr` is `rom_no`.
  unfoldable pub search : Bool → Search → Result (Bool × Search)
  search search_mode s =
      let (presence, t) = ds18b20_reset gpio_get_level s.sensor in
      let asked = ds18b20_write_byte (if search_mode then 240 else 236) t in
      if s.last_device_flag
      then ok (conclude false s)
      else if presence == 0
      then ok (
        false,
        record s {
          last_discrepancy = 0;
          last_device_flag = false;
          last_family_discrepancy = 0;
          sensor = t;
        },
      )
      else search_loop 64 (start, record s { sensor = asked }) >>= (λ l. ok (after_loop l))
