-- ===== src/Sensor/Convert/Wait.antt =====
-- When the wait for a conversion ends.
use smart_home_project.Common.{
  ℕ, zero, suc, ◌+◌, ◌/◌, ◌^◌, ◌≤◌, ◌<◌, ◌≡◌, refl, sym, subst, false, ltb, ltb-false, if_both,
  arith,
}
use smart_home_project.Sensor.{Sensor}
use smart_home_project.Sensor.Temperature.{millis_to_wait_for_conversion}
use smart_home_project.Sensor.Convert.{
  Conversion, ended, unfinished, start_of, elapsed, is_conversion_complete, wait_conversion,
  ds18b20_request_temperatures,
}

abbrev pub IsEnded : Conversion → Type 0
IsEnded (ended n s) = Unit {0}
IsEnded (unfinished n s) = ⊥

millis_le : (n : ℕ) → millis_to_wait_for_conversion n ≤ 750
unfolding millis_to_wait_for_conversion
millis_le n = ground arith

elapsed_ge : (time start : ℕ) → start + 750 ≤ time / 1000 → time < 2 ^ 63 → 750 ≤ elapsed time start
elapsed_ge time start h k = omega arith

module _ (gpio : ℕ → ℕ) (clock : ℕ → ℕ) (bit_resolution : ℕ) where
  -- The call of the clock that ends the wait.
  record IsLate (start last : ℕ) : Type 0 where
    pub late : start + 750 ≤ clock last / 1000
    pub bounded : clock last < 2 ^ 63

  stops_at :
      (last start : ℕ)
      → IsLate start last
      → ltb (elapsed (clock last) start) (millis_to_wait_for_conversion bit_resolution) ≡ false
  stops_at last start h =
      ltb-false _ _
        (omega (arith, elapsed_ge (clock last) start h.late h.bounded, millis_le bit_resolution))

  wait_conversion-IsEnded :
      (rounds start calls last : ℕ) (s : Sensor)
      → calls + rounds ≡ last
      → IsLate start last
      → IsEnded (wait_conversion gpio clock bit_resolution (suc rounds) start calls s)
  unfolding wait_conversion
  wait_conversion-IsEnded zero start calls last s e h =
      let same : calls ≡ last = omega arith in
      let at_last = subst (IsLate start) (sym same) h in
      if_both IsEnded (is_conversion_complete gpio s).0 _ _ tt
        (rw (stops_at calls start at_last) tt)
  wait_conversion-IsEnded (suc rounds) start calls last s e h =
      let (complete, t) = is_conversion_complete gpio s in
      let rest = wait_conversion gpio clock bit_resolution (suc rounds) start (calls + 1) t in
      if_both IsEnded complete _ _ tt (
        if_both IsEnded
          (ltb (elapsed (clock calls) start) (millis_to_wait_for_conversion bit_resolution)) rest _
          (wait_conversion-IsEnded rounds start (calls + 1) last t (omega arith) h) tt)

-- The wait for a conversion ends within any number of rounds whose last call of the clock, below
-- 2 ^ 63, comes 751 ms or more after the first, whatever the pin shows and the clock says between.
pub request_temperatures-IsEnded :
    (gpio clock : ℕ → ℕ) (bit_resolution rounds : ℕ) (s : Sensor)
    → clock 0 + 751000 ≤ clock (suc rounds)
    → clock (suc rounds) < 2 ^ 63
    → IsEnded (ds18b20_request_temperatures gpio clock bit_resolution (suc rounds) s)
unfolding ds18b20_request_temperatures
request_temperatures-IsEnded gpio clock bit_resolution rounds s h k =
    wait_conversion-IsEnded gpio clock bit_resolution rounds (start_of (clock 0)) 1 (suc rounds) _
      (omega arith) (record { late = omega arith; bounded = k })

-- From 2 ^ 32 ms of uptime on, `start` is cut and the time spent is at least 2 ^ 32 ms: the pin is
-- read once and the wait ends, with the conversion complete or not.
pub late_request_ends_at_once :
    (gpio clock : ℕ → ℕ) (bit_resolution : ℕ) (s : Sensor)
    → 2 ^ 32 ≤ clock 0 / 1000
    → clock 0 ≤ clock 1
    → clock 1 < 2 ^ 63
    → IsEnded (ds18b20_request_temperatures gpio clock bit_resolution 1 s)
unfolding ds18b20_request_temperatures
late_request_ends_at_once gpio clock bit_resolution s h j k =
    wait_conversion-IsEnded gpio clock bit_resolution 0 (start_of (clock 0)) 1 1 _ refl
      (record { late = omega arith; bounded = k })
