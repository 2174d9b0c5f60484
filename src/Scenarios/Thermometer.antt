-- ===== src/Scenarios/Thermometer.antt =====
-- Runs of the thermometer's driver.
use smart_home_project.Common.{
  ℕ, ◌<◌, ◌≡◌, sym, refl, [], ◌∷◌, Bytes, get_or, take, true, false, ◌*◌, replicate, Returns, ap,
  ap₂, ◌∙◌, ◌+◌, ◌-◌, ◌/◌, ◌%◌, ◌==◌, if◌then◌else◌, arith,
}
use smart_home_project.Sensor.{Sensor, ds18b20_crc8, crc_loop}
use smart_home_project.Sensor.Crc.{remainder, crc8-remainder, IsIntact}
use smart_home_project.Sensor.Search
use smart_home_project.Sensor.Search.Merge.{rom_bit}
use smart_home_project.Sensor.Search.Single.{IsAlone}
use smart_home_project.Sensor.Search.Found.{FoundOnly, search_finds_device}
use smart_home_project.Sensor.Search.Bounds.{IsFinished, search_loop_ends}
use smart_home_project.Sensor.Temperature.{negsuc, over_128, ds18b20_get_temp_c}
use smart_home_project.Sensor.Temperature.Scratchpad.{HasPad, get_temp_c-given}
use smart_home_project.Sensor.Convert.{ds18b20_request_temperatures}
use smart_home_project.Sensor.Convert.Wait.{IsEnded, request_temperatures-IsEnded}

abbrev quiet : Sensor
quiet = record { init = 1; ds_gpio = 4; reads = 0; events = [] }

-- The pin of a device that answers both pulses and gives 402 sixteenths.
abbrev warm_pin : ℕ → ℕ
warm_pin n = get_or (0 ∷ 0 ∷ 0 ∷ 1 ∷ 0 ∷ 0 ∷ 1 ∷ 0 ∷ 0 ∷ 1 ∷ 1 ∷ 0 ∷ 0 ∷ 0 ∷ 0 ∷ 0 ∷ 0 ∷ 0 ∷ []) n 0

abbrev scratch_pad : Bytes
scratch_pad = 146 ∷ 1 ∷ 75 ∷ 70 ∷ 127 ∷ 255 ∷ 14 ∷ 16 ∷ 0 ∷ []

crc8-remainder_example : ds18b20_crc8 scratch_pad 8 ≡ remainder (take 8 scratch_pad) 0
crc8-remainder_example = crc8-remainder scratch_pad 8

-- A device that gives a half degree below zero.
abbrev frost_pad : Bytes
frost_pad = 248 ∷ 255 ∷ 75 ∷ 70 ∷ 127 ∷ 255 ∷ 8 ∷ 16 ∷ 248 ∷ []

abbrev frost_pin : ℕ → ℕ
frost_pin n =
    get_or
      (0 ∷ 0 ∷ 0 ∷ 0 ∷ 1 ∷ 1 ∷ 1 ∷ 1 ∷ 1 ∷ 1 ∷ 1 ∷ 1 ∷ 1 ∷ 1 ∷ 1 ∷ 1 ∷ 1 ∷ 1 ∷ 1 ∷ 0 ∷ 1 ∷ 0 ∷ 0 ∷ 1
        ∷ 0 ∷ 0 ∷ 1 ∷ 1 ∷ 0 ∷ 0 ∷ 0 ∷ 1 ∷ 0 ∷ 1 ∷ 1 ∷ 1 ∷ 1 ∷ 1 ∷ 1 ∷ 1 ∷ 0 ∷ 1 ∷ 1 ∷ 1 ∷ 1 ∷ 1 ∷ 1
        ∷ 1 ∷ 1 ∷ 0 ∷ 0 ∷ 0 ∷ 1 ∷ 0 ∷ 0 ∷ 0 ∷ 0 ∷ 0 ∷ 0 ∷ 0 ∷ 0 ∷ 1 ∷ 0 ∷ 0 ∷ 0 ∷ 0 ∷ 0 ∷ 0 ∷ 1 ∷ 1
        ∷ 1 ∷ 1 ∷ 1 ∷ 0 ∷ [])
      n 0

frost-HasPad : HasPad frost_pin frost_pad quiet
frost-HasPad = record {
  size = refl;
  bytes = omega arith;
  present = refl;
  given = omega arith;
  still_present = refl;
}

frost-IsIntact : IsIntact frost_pad
unfolding ds18b20_crc8 crc_loop
frost-IsIntact = record { nonzero = omega arith; crc = sym (crc8-remainder frost_pad 8) }

get_temp_c-given_example :
    (ds18b20_get_temp_c frost_pin (replicate 8 40) (replicate 9 0) quiet).0 ≡ over_128 (negsuc 63)
get_temp_c-given_example =
    get_temp_c-given frost_pin (replicate 8 40) (replicate 9 0)
      (75 ∷ 70 ∷ 127 ∷ 255 ∷ 8 ∷ 16 ∷ 248 ∷ []) (negsuc 7) quiet (omega arith) frost-HasPad
      frost-IsIntact

-- A clock of one second for each call.
request_temperatures-IsEnded_example :
    IsEnded (ds18b20_request_temperatures warm_pin (λ n. 1000000 * n) 12 1 quiet)
request_temperatures-IsEnded_example =
    request_temperatures-IsEnded warm_pin (λ n. 1000000 * n) 12 0 quiet (omega arith) (omega arith)

abbrev first_search : Search.Search
first_search = record {
  devices = 0;
  rom_no = replicate 8 0;
  last_discrepancy = 0;
  last_family_discrepancy = 0;
  last_device_flag = false;
  sensor = quiet;
}

search_loop_ends_example :
    Returns IsFinished (Search.search_loop warm_pin 64 (Search.start, first_search))
search_loop_ends_example = search_loop_ends warm_pin first_search refl

-- A device that is alone on the bus, in the family 40.
abbrev serial : Bytes
serial = 40 ∷ 255 ∷ 100 ∷ 2 ∷ 18 ∷ 52 ∷ 86 ∷ 171 ∷ []

abbrev lone_level : ℕ → ℕ → ℕ → ℕ
lone_level complement i k = if complement == 0 then rom_bit serial i k else 1 - rom_bit serial i k

-- Its first bit is 0, which is also its answer to the pulse before.
abbrev lone_pin : ℕ → ℕ
lone_pin n = lone_level ((n - 1) % 2) ((n - 1) / 16) ((n - 1) / 2 % 8)

-- The pin at a reading, by the place of its bit.
lone_pin_at :
    (n c i k : ℕ) → n ≡ 1 + 2 * (8 * i + k) + c → c < 2 → k < 8 → lone_pin n ≡ lone_level c i k
lone_pin_at n c i k e h j =
    ap (λ x. lone_level x ((n - 1) / 16) ((n - 1) / 2 % 8)) complement ∙ ap₂ (lone_level c) byte bit
  where
    complement : (n - 1) % 2 ≡ c
    complement = omega arith

    byte : (n - 1) / 16 ≡ i
    byte = omega arith

    bit : (n - 1) / 2 % 8 ≡ k
    bit = omega arith

lone-IsAlone : IsAlone lone_pin 1 serial
lone-IsAlone = record {
  bits = λ i k a b. lone_pin_at _ 0 i k (omega arith) (omega arith) b;
  complements = λ i k a b. lone_pin_at _ 1 i k refl (omega arith) b;
}

search_finds_device_example :
    Returns (FoundOnly lone_pin serial 0) (Search.search lone_pin true first_search)
search_finds_device_example =
    search_finds_device lone_pin serial true first_search refl refl (omega arith) refl (omega arith)
      (omega arith) refl lone-IsAlone
