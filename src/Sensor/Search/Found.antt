-- ===== src/Sensor/Search/Found.antt =====
-- A search with one device on the bus: it finds the device's ROM number.
use smart_home_project.Common.{
  ℕ, ◌+◌, ◌%◌, ◌≡◌, ◌≢◌, refl, sym, subst, ◌∙◌, ap, ap₂, [], ◌∷◌, Bool, true, false, Bytes, length,
  All, Returns, Returns->>=, get_or, ltb, ◌==◌, if◌then◌else◌, arith,
}
use smart_home_project.HomeCenter.Types.{IsByte}
use smart_home_project.Sensor.{ds18b20_write_byte, ds18b20_reset}
use smart_home_project.Sensor.Transfer.{write_byte-reads}
use smart_home_project.Sensor.Search.{
  Search, Cursor, Looped, finished, unfinished, start, after_loop, conclude, search_loop, search,
}
use smart_home_project.Sensor.Search.Merge.{blended_start}
use smart_home_project.Sensor.Search.Single.{IsAlone, Holds, Finds, search_loop-Finds}

-- The search goes on to its loop.
goes_on {ℓ} :
    {A : Type ℓ} (flag : Bool) (presence : ℕ) (x y z : A)
    → flag ≡ false
    → presence ≡ 1
    → (if flag then x else if presence == 0 then y else z) ≡ z
goes_on flag presence x y z f p = rw (f, p) refl

-- A search that found the ROM number `rom`, the only one: a search after it finds no more.
pub record FoundOnly (gpio : ℕ → ℕ) (rom : Bytes) (devices : ℕ) (x : Bool × Search) : Type 0 where
  pub found : x.0 ≡ true
  pub rom_no : x.1.rom_no ≡ rom
  pub counted : x.1.devices ≡ (devices + 1) % 256
  pub last : x.1.last_device_flag ≡ true
  pub no_more : (mode : Bool) → Returns (λ y. y.0 ≡ false) (search gpio mode x.1)

ended_already {ℓ} :
    {A : Type ℓ} (P : A → Type 0) (flag : Bool) (x y : A)
    → flag ≡ true
    → P x
    → P (if flag then x else y)
ended_already P flag x y e p = rw e p

no_more_devices :
    (gpio : ℕ → ℕ) (mode : Bool) (s : Search)
    → s.last_device_flag ≡ true
    → Returns (λ y. y.0 ≡ false) (search gpio mode s)
unfolding search conclude
no_more_devices gpio mode s e =
    ended_already (Returns (λ y. y.0 ≡ false)) s.last_device_flag _ _ e refl

begins_with_zero :
    (xs : Bytes) → get_or xs 0 0 ≢ 0 → (elim xs [ [] ↦ true | b ∷ bs ↦ b == 0 ]) ≡ false
begins_with_zero [] h = absurd (h refl)
begins_with_zero (b ∷ bs) h = ground arith

conclude_first :
    (s : Search)
    → get_or s.rom_no 0 0 ≢ 0
    → conclude true s ≡ (true, record s { devices = (s.devices + 1) % 256 })
unfolding conclude
conclude_first s h =
    ap
      (λ b.
        if b
        then (
          false,
          record s {
            devices = 0;
            last_discrepancy = 0;
            last_device_flag = false;
            last_family_discrepancy = 0;
          },
        )
        else (true, record s { devices = (s.devices + 1) % 256 }))
      (begins_with_zero s.rom_no h)

-- What a loop that took all bits without a discrepancy is concluded with.
after_loop_all :
    (c : Cursor) (s : Search)
    → c.id_bit_number ≡ 65
    → c.last_zero ≡ 0
    → get_or s.rom_no 0 0 ≢ 0
    → after_loop (finished (c, s)) ≡ (
      true,
      record s { devices = (s.devices + 1) % 256; last_discrepancy = 0; last_device_flag = true },
    )
after_loop_all c s e z h =
    ap₂
      (λ n m.
        if ltb n 65
        then conclude false s
        else conclude true (record s {
          last_discrepancy = m;
          last_device_flag = if m == 0 then true else s.last_device_flag;
        }))
      e z
    ∙ conclude_first (record s { last_discrepancy = 0; last_device_flag = true }) h

after_loop-FoundOnly :
    (gpio : ℕ → ℕ) (r devices : ℕ) (rom old : Bytes) (l : Looped)
    → Finds gpio r devices rom old l
    → get_or rom 0 0 ≢ 0
    → FoundOnly gpio rom devices (after_loop l)
after_loop-FoundOnly gpio r devices rom old (unfinished x) h n = absurd h
after_loop-FoundOnly gpio r devices rom old (finished (c, s)) h n =
    rw (after_loop_all c s h.all_bits h.no_zero (subst (λ xs. get_or xs 0 0 ≢ 0) (sym h.rom_no) n))
      (record {
        found = refl;
        rom_no = h.rom_no;
        counted = omega (arith, h.counted);
        last = refl;
        no_more = λ mode. no_more_devices gpio mode _ refl;
      })

-- Where one device is on the bus, answers the pulse and gives its ROM number, which does not begin
-- with zero, bit by bit with the complements: a search that has not come to its end yet finds it, in
-- either mode and whatever ROM_NO held, and a search after it finds no more.
pub search_finds_device :
    (gpio : ℕ → ℕ) (rom : Bytes) (mode : Bool) (s : Search)
    → s.last_device_flag ≡ false
    → length s.rom_no ≡ 8
    → All IsByte s.rom_no
    → length rom ≡ 8
    → All IsByte rom
    → get_or rom 0 0 ≢ 0
    → gpio s.sensor.reads ≡ 0
    → IsAlone gpio (s.sensor.reads + 1) rom
    → Returns (FoundOnly gpio rom s.devices) (search gpio mode s)
unfolding search ds18b20_reset
search_finds_device gpio rom mode s flag size old_bytes e bytes n present alone =
    let asked = ds18b20_write_byte (if mode then 240 else 236) (ds18b20_reset gpio s.sensor).1 in
    let x : Cursor × Search = (start, record s { sensor = asked }) in
    let held : Holds (s.sensor.reads + 1) s.devices rom s.rom_no 0 0 x = record {
      at = record { bit = omega arith; number = refl; position = refl; mask = refl };
      no_zero = refl;
      rom_no = sym (blended_start rom s.rom_no (omega (arith, e, size)));
      reads =
          write_byte-reads (if mode then 240 else 236) (ds18b20_reset gpio s.sensor).1
          ∙ omega arith;
      counted = refl;
    } in
    let found =
      search_loop-Finds gpio (s.sensor.reads + 1) s.devices rom s.rom_no 64 0 0 x alone e size bytes
        old_bytes (omega arith) held refl in
    let answered : (if gpio s.sensor.reads == 0 then 1 else 0) ≡ 1 = rw present refl in
    subst (Returns (FoundOnly gpio rom s.devices))
      (sym (goes_on s.last_device_flag _ _ _ _ flag answered))
      (Returns->>= (Finds gpio (s.sensor.reads + 1) s.devices rom s.rom_no) _
        (search_loop gpio 64 x) _ found
        λ l h. after_loop-FoundOnly gpio (s.sensor.reads + 1) s.devices rom s.rom_no l h n)
