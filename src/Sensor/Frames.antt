-- ===== src/Sensor/Frames.antt =====
-- The bytes that ds18b20_write_byte of Device1_coap/main/ds18b20.c puts on the bus between the pulses
-- of ds18b20_reset, seen from the device.
use smart_home_project.Common.{
  ℕ, ◌≡◌, refl, ◌∙◌, ap, ap₂, sym, ◌++◌, append_assoc, append-nil, List, [], ◌∷◌, Bytes, All, arith,
}
use smart_home_project.HomeCenter.Types.{IsByte}
use smart_home_project.Sensor.{
  Sensor, Event, output, input, set_level, get_level, delay_us, write_bytes, ds18b20_write_byte,
}
use smart_home_project.Sensor.Transfer.{
  received, number, bits, slots, write_bits-slots, received-slots, number-bits,
}

-- The bytes of the bits that a device takes, eight by eight.
abbrev pub numbers : Bytes → Bytes
numbers (a ∷ b ∷ c ∷ d ∷ e ∷ f ∷ g ∷ h ∷ rest) =
    number (a ∷ b ∷ c ∷ d ∷ e ∷ f ∷ g ∷ h ∷ []) ∷ numbers rest
numbers _ = []

-- What is done to the pin for some bytes.
abbrev pub frames : Bytes → List Event
frames [] = []
frames (b ∷ bs) = slots 8 b ++ (delay_us 100 ∷ frames bs)

abbrev pub pulse : List Event
pulse =
    output
    ∷ set_level 0
    ∷ delay_us 480
    ∷ set_level 1
    ∷ input
    ∷ delay_us 70
    ∷ get_level
    ∷ delay_us 410
    ∷ []

abbrev all_bits : Bytes → Bytes
all_bits [] = []
all_bits (b ∷ bs) = bits 8 b ++ all_bits bs

frames-append : (bs cs : Bytes) → frames (bs ++ cs) ≡ frames bs ++ frames cs
frames-append [] cs = refl
frames-append (b ∷ bs) cs =
    ap (λ es. slots 8 b ++ (delay_us 100 ∷ es)) (frames-append bs cs)
    ∙ sym (append_assoc (slots 8 b) (delay_us 100 ∷ frames bs) (frames cs))

received-frames :
    (bs : Bytes) (es : List Event) → received (frames bs ++ es) ≡ all_bits bs ++ received es
received-frames [] es = refl
received-frames (b ∷ bs) es =
    ap received (append_assoc (slots 8 b) (delay_us 100 ∷ frames bs) es)
    ∙ (received-slots 8 b (delay_us 100 ∷ (frames bs ++ es))
        ∙ (ap (λ x. bits 8 b ++ x) (received-frames bs es)
            ∙ sym (append_assoc (bits 8 b) (all_bits bs) (received es))))

numbers-all_bits : (bs : Bytes) → All IsByte bs → numbers (all_bits bs ++ []) ≡ bs
numbers-all_bits [] h = refl
numbers-all_bits (b ∷ bs) h = ap₂ ◌∷◌ (number-bits 8 b (omega arith)) (numbers-all_bits bs h.1)

-- Some bytes between two pulses are what the device takes.
pub received-pulses :
    (bs : Bytes) → All IsByte bs → numbers (received (pulse ++ (frames bs ++ pulse))) ≡ bs
received-pulses bs h = ap numbers (received-frames bs pulse) ∙ numbers-all_bits bs h

write_byte-events :
    (b : ℕ) (s : Sensor)
    → (ds18b20_write_byte b s).events ≡ s.events ++ (slots 8 b ++ delay_us 100 ∷ [])
unfolding ds18b20_write_byte
write_byte-events b s =
    ap (λ x. x.events ++ delay_us 100 ∷ []) (write_bits-slots 8 b s)
    ∙ append_assoc s.events (slots 8 b) (delay_us 100 ∷ [])

pub write_bytes-events :
    (bs : Bytes) (s : Sensor) → (write_bytes bs s).events ≡ s.events ++ frames bs
unfolding write_bytes
write_bytes-events [] s = sym (append-nil s.events)
write_bytes-events (b ∷ bs) s =
    write_bytes-events bs (ds18b20_write_byte b s)
    ∙ (ap (λ x. x ++ frames bs) (write_byte-events b s)
        ∙ (append_assoc s.events _ (frames bs)
            ∙ ap (λ x. s.events ++ x) (append_assoc (slots 8 b) (delay_us 100 ∷ []) (frames bs))))

pub write_bytes-append :
    (bs cs : Bytes) (s : Sensor) → write_bytes (bs ++ cs) s ≡ write_bytes cs (write_bytes bs s)
unfolding write_bytes
write_bytes-append [] cs s = refl
write_bytes-append (b ∷ bs) cs s = write_bytes-append bs cs (ds18b20_write_byte b s)
