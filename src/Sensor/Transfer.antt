-- ===== src/Sensor/Transfer.antt =====
-- What goes over the wire, seen from the device.
use smart_home_project.Common.{
  ℕ, zero, suc, ◌+◌, ◌*◌, ◌/◌, ◌%◌, ◌<◌, ◌⊎◌, ◌≡◌, ◌≢◌, ==_ne, refl, ◌∙◌, ap, ap₂, append-nil, sym,
  subst, if◌then◌else◌, inl, inr, ◌++◌, append_assoc, List, [], ◌∷◌, Bytes, ltb, ◌==◌, Bool-cases,
  arith,
}
use smart_home_project.Sensor.{
  Sensor, Event, output, input, set_level, delay_us, task_delay_ms, emit, write_slot, ds18b20_write,
  write_bits, ds18b20_write_byte, ds18b20_read, read_bits, ds18b20_read_byte, ds18b20_reset,
  convert_and_ask, ds18b20_get_temp, ds18b20_init,
}

-- The bits that a device takes: it looks at the bus 15 to 60 microseconds after the fall, so that a
-- slot of less than 15 is a 1, and one of 60 or more a 0.
abbrev pub received : List Event → Bytes
received (output ∷ set_level l ∷ delay_us t ∷ input ∷ delay_us r ∷ es) =
    (if ltb t 15 then 1 else 0) ∷ received es
received (e ∷ es) = received es
received [] = []

-- A byte from its bits, the lowest first.
abbrev pub number : Bytes → ℕ
number [] = 0
number (b ∷ bs) = b + 2 * number bs

abbrev pub bits : ℕ → ℕ → Bytes
bits zero d = []
bits (suc n) d = (d % 2) ∷ bits n (d / 2)

abbrev pow2 : ℕ → ℕ
pow2 zero = 1
pow2 (suc n) = pow2 n + pow2 n

pub number-bits : (n d : ℕ) → d < pow2 n → number (bits n d) ≡ d
number-bits zero d h = omega arith
number-bits (suc n) d h = omega (arith, number-bits n (d / 2) (omega arith))

abbrev pub slots : ℕ → ℕ → List Event
slots zero d = []
slots (suc n) d = write_slot (d % 2) ++ slots n (d / 2)

pub write_bits-slots :
    (n d : ℕ) (s : Sensor) → write_bits n d s ≡ record s { events = s.events ++ slots n d }
unfolding write_bits ds18b20_write
write_bits-slots zero d s = ap (λ es. record s { events = es }) (rw append-nil refl)
write_bits-slots (suc n) d s =
    write_bits-slots n (d / 2) _ ∙ ap (λ es. record s { events = es }) (append_assoc s.events _ _)

pub received-slots :
    (n d : ℕ) (es : List Event) → received (slots n d ++ es) ≡ bits n d ++ received es
received-slots zero d es = refl
received-slots (suc n) d es = elim (Bool-cases (d % 2 % 2 == 1)) [
  | inl e ↦ rw e (ap₂ ◌∷◌ (ground arith) (received-slots n (d / 2) es))
  | inr e ↦ rw e (ap₂ ◌∷◌ (ground arith) (received-slots n (d / 2) es))
]

-- The readings of the pin from the r-th on are the lowest n bits of d, the lowest first.
abbrev pub Gives : (ℕ → ℕ) → ℕ → ℕ → ℕ → Type 0
Gives gpio r zero d = Unit {0}
Gives gpio r (suc n) d = (gpio r ≡ d % 2) × Gives gpio (r + 1) n (d / 2)

digit_cases : (n : ℕ) → n < 2 → (n ≡ 0) ⊎ (n ≡ 1)
digit_cases n h = ground arith

bit_value :
    (level d w rest : ℕ)
    → level ≡ d % 2
    → (if level % 256 == 0 then w * 2 * rest else w + w * 2 * rest) ≡ w * (d % 2 + 2 * rest)
bit_value level d w rest h = elim (digit_cases (d % 2) (omega arith)) [
  | inl z ↦ rw (h, z) (omega arith)
  | inr o ↦ rw (h, o) (omega arith)
]

module _ (gpio : ℕ → ℕ) where
  read_bits-reads : (n w : ℕ) (s : Sensor) → (read_bits gpio n w s).1.reads ≡ s.reads + n
  unfolding read_bits ds18b20_read
  read_bits-reads zero w s = omega arith
  read_bits-reads (suc n) w s = read_bits-reads n (w * 2) _ ∙ omega arith

  read_bits-number :
      (n w d : ℕ) (s : Sensor)
      → Gives gpio s.reads n d
      → (read_bits gpio n w s).0 ≡ w * number (bits n d)
  unfolding read_bits ds18b20_read
  read_bits-number zero w d s g = omega arith
  read_bits-number (suc n) w d s g =
      ap (λ x. if gpio s.reads % 256 == 0 then x else w + x)
        (read_bits-number n (w * 2) (d / 2) _ g.1)
      ∙ bit_value (gpio s.reads) d w (number (bits n (d / 2))) g.0

pub write_byte-reads : (byte : ℕ) (s : Sensor) → (ds18b20_write_byte byte s).reads ≡ s.reads
unfolding ds18b20_write_byte
write_byte-reads byte s = ap (λ x. x.reads) (write_bits-slots 8 byte s)

-- The byte whose bits the pin shows, the lowest first, is the byte that is read.
pub read_byte-given :
    (gpio : ℕ → ℕ) (byte r : ℕ) (s : Sensor)
    → s.reads ≡ r
    → byte < 256
    → Gives gpio r 8 byte
    → (ds18b20_read_byte gpio s).0 ≡ byte
unfolding ds18b20_read_byte
read_byte-given gpio byte r s e h g =
    read_bits-number gpio 8 1 byte s (subst (λ x. Gives gpio x 8 byte) (sym e) g)
    ∙ omega (arith, number-bits 8 byte (omega arith))

convert_and_ask-reads : (gpio : ℕ → ℕ) (s : Sensor) → (convert_and_ask gpio s).reads ≡ s.reads + 1
unfolding convert_and_ask ds18b20_reset
convert_and_ask-reads gpio s =
    let first = ds18b20_write_byte 204 s in
    let second = emit (task_delay_ms 750 ∷ []) (ds18b20_write_byte 68 first) in
    let third = (ds18b20_reset gpio second).1 in
    write_byte-reads 190 (ds18b20_write_byte 204 third)
    ∙ write_byte-reads 204 third
    ∙ ap (λ n. n + 1) (write_byte-reads 68 first ∙ write_byte-reads 204 s)

pub read_byte-reads : (gpio : ℕ → ℕ) (s : Sensor) → (ds18b20_read_byte gpio s).1.reads ≡ s.reads + 8
unfolding ds18b20_read_byte
read_byte-reads gpio s = read_bits-reads gpio 8 1 s

both_one :
    (a b : ℕ) (x y z : ℕ × Sensor)
    → a ≡ 1
    → b ≡ 1
    → (if a == 1 then (if b == 1 then x else y) else z) ≡ x
both_one a b x y z p q = rw (p, q) refl

-- An initialised driver whose pulse is answered reads the device's word, lower byte first: its
-- temperature is the number of sixteenths in the 16 bits, without a sign.
pub get_temp-word :
    (gpio : ℕ → ℕ) (low high : ℕ) (s : Sensor)
    → s.init ≡ 1
    → gpio s.reads ≡ 0
    → low < 256
    → high < 256
    → Gives gpio (s.reads + 2) 8 low
    → Gives gpio (s.reads + 10) 8 high
    → (ds18b20_get_temp gpio s).0 ≡ low + high * 256
unfolding ds18b20_get_temp ds18b20_reset
get_temp-word gpio low high s i p l h gl gh =
    let asked = convert_and_ask gpio (ds18b20_reset gpio s).1 in
    let at_low : asked.reads ≡ s.reads + 2 =
      convert_and_ask-reads gpio (ds18b20_reset gpio s).1 ∙ omega arith in
    let at_high : (ds18b20_read_byte gpio asked).1.reads ≡ s.reads + 10 =
      read_byte-reads gpio asked ∙ omega (arith, at_low) in
    let answered : (if gpio s.reads == 0 then 1 else 0) ≡ 1 = rw p refl in
    ap (λ x. x.0) (both_one s.init _ _ _ _ i answered)
    ∙ ap₂ (λ a b. a + b * 256) (read_byte-given gpio low (s.reads + 2) asked at_low l gl)
        (read_byte-given gpio high (s.reads + 10) (ds18b20_read_byte gpio asked).1 at_high h gh)

-- Before `ds18b20_init` there is no temperature, and nothing is done to the pin; after it a device
-- that answers the pulse gives its word.
pub get_temp_uninitialised :
    (gpio : ℕ → ℕ) (s : Sensor) → s.init ≢ 1 → ds18b20_get_temp gpio s ≡ (0, s)
unfolding ds18b20_get_temp
get_temp_uninitialised gpio s n = rw (==_ne s.init 1 n) refl

pub get_temp-init :
    (gpio : ℕ → ℕ) (pin low high : ℕ) (s : Sensor)
    → gpio s.reads ≡ 0
    → low < 256
    → high < 256
    → Gives gpio (s.reads + 2) 8 low
    → Gives gpio (s.reads + 10) 8 high
    → (ds18b20_get_temp gpio (ds18b20_init pin s)).0 ≡ low + high * 256
unfolding ds18b20_init
get_temp-init gpio pin low high s p l h gl gh =
    get_temp-word gpio low high (ds18b20_init pin s) refl p l h gl gh
