-- ===== src/Sensor/Temperature/Signed.antt =====
-- The sensor's word, in two's complement, against the temperature that is made of it.
use smart_home_project.Common.{ℕ, ◌+◌, ◌-◌, ◌*◌, ◌/◌, ◌%◌, ◌<◌, ◌≤◌, ◌≡◌, refl, ◌∷◌, Bytes, arith}
use smart_home_project.Sensor.Temperature.{
  ℤ, pos, negsuc, calculate_temperature, over_128, device_disconnected_f, reading_of,
}

-- A number of sixteenths of a degree as the sensor's 16 bits.
abbrev pub word : ℤ → ℕ
word (pos n) = n
word (negsuc n) = 65535 - n

-- Above -55 and up to 125 degrees.
abbrev pub InRange : ℤ → Type 0
InRange (pos n) = n ≤ 2000
InRange (negsuc n) = n < 879

abbrev pub times8 : ℤ → ℤ
times8 (pos n) = pos (8 * n)
times8 (negsuc n) = negsuc (8 * n + 7)

-- A scratchpad that begins with the word of a temperature above -55 and up to 125 degrees gives
-- that temperature, with its sign, as a number of parts of 128.
pub reading_of-word :
    (t : ℤ) (rest : Bytes)
    → InRange t
    → reading_of (word t % 256 ∷ word t / 256 ∷ rest) ≡ over_128 (times8 t)
unfolding reading_of calculate_temperature
reading_of-word (pos n) rest h = ground arith
reading_of-word (negsuc n) rest h = ground arith

-- The lowest temperature of the sensor's range, -55 degrees, is taken for a missing device.
pub lowest_lost :
    (rest : Bytes)
    → reading_of (word (negsuc 879) % 256 ∷ word (negsuc 879) / 256 ∷ rest) ≡ device_disconnected_f
unfolding reading_of calculate_temperature
lowest_lost rest = refl
