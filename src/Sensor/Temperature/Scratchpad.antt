-- ===== src/Sensor/Temperature/Scratchpad.antt =====
-- From the scratchpad of a device on the bus to the temperature that the driver gives.
use smart_home_project.Common.{
  ℕ, zero, suc, ◌+◌, ◌*◌, ◌/◌, ◌%◌, ◌≡◌, refl, ◌∙◌, ap, ap₂, ◌&&◌, sym, [], ◌∷◌, Bool, true, false,
  Bytes, take, All, length, if◌then◌else◌, ◌==◌, arith,
}
use smart_home_project.HomeCenter.Types.{IsByte}
use smart_home_project.Sensor.{
  Sensor, write_bytes, ds18b20_write_byte, ds18b20_select, ds18b20_read_byte, ds18b20_reset,
  read_bytes, ds18b20_read_scratch_pad, ds18b20_is_connected, is_sound,
}
use smart_home_project.Sensor.Crc.{IsIntact, IsIntact-is_sound}
use smart_home_project.Sensor.Transfer.{Gives, write_byte-reads, read_byte-reads, read_byte-given}
use smart_home_project.Sensor.Temperature.{
  ℤ, over_128, device_disconnected_f, reading_of, ds18b20_get_temp_c,
}
use smart_home_project.Sensor.Temperature.Signed.{word, InRange, times8, reading_of-word}

write_bytes-reads : (bs : Bytes) (s : Sensor) → (write_bytes bs s).reads ≡ s.reads
unfolding write_bytes
write_bytes-reads [] s = refl
write_bytes-reads (b ∷ bs) s = write_bytes-reads bs (ds18b20_write_byte b s) ∙ write_byte-reads b s

-- The readings from the r-th on are those of the bytes, each with the lowest bit first.
abbrev pub GivesAll : (ℕ → ℕ) → ℕ → Bytes → Type 0
GivesAll gpio r [] = Unit {0}
GivesAll gpio r (b ∷ bs) = Gives gpio r 8 b × GivesAll gpio (r + 8) bs

module _ (gpio : ℕ → ℕ) where
  read_bytes-given :
      (pad : Bytes) (r : ℕ) (s : Sensor)
      → s.reads ≡ r
      → All IsByte pad
      → GivesAll gpio r pad
      → (read_bytes gpio (length pad) s).0 ≡ pad
  unfolding read_bytes
  read_bytes-given [] r s e v g = refl
  read_bytes-given (b ∷ pad) r s e v g =
      let t = (ds18b20_read_byte gpio s).1 in
      let at_next : t.reads ≡ r + 8 = read_byte-reads gpio s ∙ ap (λ n. n + 8) e in
      ap₂ ◌∷◌ (read_byte-given gpio b r s e v.0 g.0)
        (read_bytes-given pad (r + 8) t at_next v.1 g.1)

  read_bytes-reads : (n : ℕ) (s : Sensor) → (read_bytes gpio n s).1.reads ≡ s.reads + 8 * n
  unfolding read_bytes
  read_bytes-reads zero s = omega arith
  read_bytes-reads (suc n) s =
      read_bytes-reads n (ds18b20_read_byte gpio s).1 ∙ omega (arith, read_byte-reads gpio s)

  -- A device that answers both pulses and gives the scratchpad `pad` of nine bytes between them.
  pub record HasPad (pad : Bytes) (s : Sensor) : Type 0 where
    pub size : length pad ≡ 9
    pub bytes : All IsByte pad
    pub present : gpio s.reads ≡ 0
    pub given : GivesAll gpio (s.reads + 1) pad
    pub still_present : gpio (s.reads + 73) ≡ 0

  reset-present : (s : Sensor) → gpio s.reads ≡ 0 → (ds18b20_reset gpio s).0 ≡ 1
  unfolding ds18b20_reset
  reset-present s h = rw h refl

  reset-reads : (s : Sensor) → (ds18b20_reset gpio s).1.reads ≡ s.reads + 1
  unfolding ds18b20_reset
  reset-reads s = refl

  asked-reads :
      (address : Bytes) (s : Sensor)
      → (ds18b20_write_byte 190 (ds18b20_select address s)).reads ≡ s.reads
  unfolding ds18b20_select
  asked-reads address s =
      write_byte-reads 190 _
      ∙ (write_bytes-reads (take 8 address) (ds18b20_write_byte 85 s) ∙ write_byte-reads 85 s)

  both_answered :
      {A : Type 0} (a b : ℕ) (y : A) (f : Bool → A)
      → a ≡ 1
      → b ≡ 1
      → (if a == 0 then y else f (b == 1)) ≡ f true
  both_answered a b y f p q = rw (p, q) refl

  pub read_scratch_pad-given :
      (address stack pad : Bytes) (s : Sensor)
      → HasPad pad s
      → (x : Sensor) × (ds18b20_read_scratch_pad gpio address stack s ≡ (true, pad, x))
  unfolding ds18b20_read_scratch_pad
  read_scratch_pad-given address stack pad s h =
      let (b, t) = ds18b20_reset gpio s in
      let asked = ds18b20_write_byte 190 (ds18b20_select address t) in
      let at_pad : asked.reads ≡ s.reads + 1 = asked-reads address t ∙ reset-reads s in
      let (bytes, u) = read_bytes gpio 9 asked in
      let at_end : u.reads ≡ s.reads + 73 = read_bytes-reads 9 asked ∙ omega (arith, at_pad) in
      let read : bytes ≡ pad =
        ap (λ n. (read_bytes gpio n asked).0) (sym h.size)
        ∙ read_bytes-given pad (s.reads + 1) asked at_pad h.bytes h.given in
      let (c, v) = ds18b20_reset gpio u in
      let last : c ≡ 1 = reset-present u (ap gpio at_end ∙ h.still_present) in
      (
        v,
        both_answered b c (false, stack, t) (λ o. (o, bytes, v)) (reset-present s h.present) last
            ∙ ap (λ p. (true, p, v)) read,
      )

  -- Where a device answers both pulses and gives a scratchpad of nine bytes that are not all zeros, of
  -- which the ninth is the CRC of the others, and that begins with the word of a temperature above -55
  -- and up to 125 degrees, the driver gives that temperature, with its sign, in parts of 128, for any address and
  -- whatever the driver's array held before.
  pub get_temp_c-given :
      (address stack rest : Bytes) (t : ℤ) (s : Sensor)
      → InRange t
      → HasPad (word t % 256 ∷ word t / 256 ∷ rest) s
      → IsIntact (word t % 256 ∷ word t / 256 ∷ rest)
      → (ds18b20_get_temp_c gpio address stack s).0 ≡ over_128 (times8 t)
  unfolding ds18b20_get_temp_c ds18b20_is_connected
  get_temp_c-given address stack rest t s r h intact =
      let (x, e) = read_scratch_pad-given address stack _ s h in
      ap (λ (b, p, u). if b && is_sound p then reading_of p else device_disconnected_f) e
      ∙ (ap
            (λ b.
              if b then reading_of (word t % 256 ∷ word t / 256 ∷ rest) else device_disconnected_f)
            (IsIntact-is_sound _ intact)
          ∙ reading_of-word t rest r)
