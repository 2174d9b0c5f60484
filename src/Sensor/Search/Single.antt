-- ===== src/Sensor/Search/Single.antt =====
-- The loop of `search` with one device on the bus.
use smart_home_project.Common.{
  ℕ, zero, suc, ◌+◌, ◌-◌, ◌*◌, ◌%◌, ◌<◌, ◌≡◌, refl, sym, subst, ◌∙◌, ap, inl, inr, ◌⊎◌, Bytes,
  length, All, ok, ◌>>=◌, Returns, ltb, ltb→lt, lt→ltb, Bool-cases, arith,
}
use smart_home_project.HomeCenter.Types.{IsByte}
use smart_home_project.Sensor.{ds18b20_read, ds18b20_write}
use smart_home_project.Sensor.Search.{
  Search, Cursor, advance, take_direction, went, Looped, finished, unfinished, on_bits,
  search_round, search_loop,
}
use smart_home_project.Sensor.Search.Places.{IsAt, Moved, advance-Moved}
use smart_home_project.Sensor.Search.Merge.{
  rom_bit, blended, stored-blended, blended_next_byte, blended_all,
}

-- A device that is alone on the bus: from the r-th reading on, each bit of its ROM number and then
-- the complement.
pub record IsAlone (gpio : ℕ → ℕ) (r : ℕ) (rom : Bytes) : Type 0 where
  pub bits : (i k : ℕ) → i < 8 → k < 8 → gpio (r + 2 * (8 * i + k)) ≡ rom_bit rom i k
  pub complements : (i k : ℕ) → i < 8 → k < 8 → gpio (r + 2 * (8 * i + k) + 1) ≡ 1 - rom_bit rom i k

-- The search stands at bit `k` of byte `i`.
pub record Holds (r devices : ℕ) (rom old : Bytes) (i k : ℕ) (x : Cursor × Search) : Type 0 where
  pub at : IsAt i k x.0
  pub no_zero : x.0.last_zero ≡ 0
  pub rom_no : x.1.rom_no ≡ blended i k rom old
  pub reads : x.1.sensor.reads ≡ r + 2 * (8 * i + k)
  pub counted : x.1.devices ≡ devices

on_bits_alone :
    (bit level complement : ℕ) (c : Cursor) (s : Search)
    → level ≡ bit
    → complement ≡ 1 - bit
    → bit < 2
    → on_bits (level % 256) (complement % 256) c s ≡ (take_direction bit c s >>= (λ x. ok (went x)))
on_bits_alone bit level complement c s l m h = elim (two_cases bit h) [
  | inl z ↦ rw (l, m, z) refl
  | inr o ↦ rw (l, m, o) refl
]
  where
    two_cases : (b : ℕ) → b < 2 → (b ≡ 0) ⊎ (b ≡ 1)
    two_cases b h = ground arith

module _ (gpio : ℕ → ℕ) (r devices : ℕ) (rom old : Bytes) where
  -- What a round leaves.
  record IsNext (i k : ℕ) (c : Cursor) (y : Cursor × Search) : Type 0 where
    pub moved : y.0 ≡ advance c
    pub rom_no : y.1.rom_no ≡ blended i (suc k) rom old
    pub reads : y.1.sensor.reads ≡ r + 2 * (8 * i + k) + 2
    pub counted : y.1.devices ≡ devices

  search_round-IsNext :
      (i k : ℕ) (x : Cursor × Search)
      → Holds r devices rom old i k x
      → IsAlone gpio r rom
      → i < 8
      → length rom ≡ 8
      → length old ≡ 8
      → (y : Cursor × Search) × (search_round gpio x ≡ ok (went y)) × IsNext i k x.0 y
  unfolding search_round take_direction ds18b20_read ds18b20_write
  search_round-IsNext i k x h alone b e f =
      let bit = rom_bit rom i k in
      let second = (ds18b20_read gpio (ds18b20_read gpio x.1.sensor).1).1 in
      let s = record x.1 { sensor = second } in
      let y : Bytes → Cursor × Search =
        λ xs. (advance x.0, record s { rom_no = xs; sensor = ds18b20_write bit second }) in
      (
        y (blended i (suc k) rom old),
        on_bits_alone bit (gpio x.1.sensor.reads) (gpio (x.1.sensor.reads + 1)) x.0 s
              (ap gpio h.reads ∙ alone.bits i k b h.at.bit)
              (ap (λ n. gpio (n + 1)) h.reads ∙ alone.complements i k b h.at.bit) (omega arith)
            ∙ ap (λ m. m >>= (λ z. ok (went z)))
                (stored-blended x.0.rom_byte_number x.0.rom_byte_mask bit i k x.1.rom_no rom old
                  (λ xs. ok (y xs)) h.at.position h.at.mask refl h.rom_no h.at.bit
                  (omega (arith, e)) (omega (arith, e, f))),
        record { moved = refl; rom_no = refl; reads = omega (arith, h.reads); counted = h.counted },
      )

  -- The end of a loop that found the device.
  pub record IsFound (x : Cursor × Search) : Type 0 where
    pub all_bits : x.0.id_bit_number ≡ 65
    pub no_zero : x.0.last_zero ≡ 0
    pub rom_no : x.1.rom_no ≡ rom
    pub counted : x.1.devices ≡ devices

  abbrev pub Finds : Looped → Type 0
  Finds (finished x) = IsFound x
  Finds (unfinished x) = ⊥

  next_bit :
      (i k : ℕ) (x y : Cursor × Search)
      → Holds r devices rom old i k x
      → IsNext i k x.0 y
      → IsAt i (suc k) y.0
      → Holds r devices rom old i (suc k) y
  next_bit i k x y h n a = record {
    at = a;
    no_zero = ap (λ c. c.last_zero) n.moved ∙ h.no_zero;
    rom_no = n.rom_no;
    reads = omega (arith, n.reads);
    counted = n.counted;
  }

  next_byte :
      (i k : ℕ) (x y : Cursor × Search)
      → Holds r devices rom old i k x
      → IsNext i k x.0 y
      → k ≡ 7
      → IsAt (i + 1) 0 y.0
      → length old ≡ length rom
      → All IsByte rom
      → All IsByte old
      → Holds r devices rom old (i + 1) 0 y
  next_byte i k x y h n e a l v w = record {
    at = a;
    no_zero = ap (λ c. c.last_zero) n.moved ∙ h.no_zero;
    rom_no =
        n.rom_no
        ∙ ap (λ j. blended i (suc j) rom old) e
        ∙ blended_next_byte i rom old l v w
        ∙ ap (λ j. blended j 0 rom old) (omega arith);
    reads = omega (arith, n.reads, e);
    counted = n.counted;
  }

  ends-IsFound :
      (x : Cursor × Search)
      → Holds r devices rom old 8 0 x
      → length rom ≡ 8
      → length old ≡ 8
      → IsFound x
  ends-IsFound x h e f = record {
    all_bits = h.at.number;
    no_zero = h.no_zero;
    rom_no = h.rom_no ∙ blended_all 8 rom old (omega (arith, e, f)) e;
    counted = h.counted;
  }

  pub search_loop-Finds :
      (rounds i k : ℕ) (x : Cursor × Search)
      → IsAlone gpio r rom
      → length rom ≡ 8
      → length old ≡ 8
      → All IsByte rom
      → All IsByte old
      → i < 8
      → Holds r devices rom old i k x
      → rounds + (8 * i + k) ≡ 64
      → Returns Finds (search_loop gpio rounds x)
  unfolding search_loop
  search_loop-Finds zero i k x alone e f v w b h l = absurd (omega (arith, h.at.bit))
  search_loop-Finds (suc rounds) i k x alone e f v w b h l =
      let (y, round, n) = search_round-IsNext i k x h alone b e f in
      let moved : Moved i k y.0 = subst (Moved i k) (sym n.moved) (advance-Moved i k x.0 b h.at) in
      rw round (elim moved [
        | inl a ↦ rw (lt→ltb y.0.rom_byte_number 8 (omega (arith, a.position))) (
            search_loop-Finds rounds i (suc k) y alone e f v w b (next_bit i k x y h n a)
              (omega arith))
        | inr (s, a) ↦
            let held = next_byte i k x y h n s a (omega (arith, e, f)) v w in
            elim (Bool-cases (ltb y.0.rom_byte_number 8)) [
              | inl t ↦ rw t (
                  search_loop-Finds rounds (i + 1) 0 y alone e f v w
                    (omega (arith, a.position, ltb→lt y.0.rom_byte_number 8 t)) held (omega arith))
              | inr t ↦ rw t (
                  ends-IsFound y (subst (λ j. Holds r devices rom old j 0 y) (ground arith) held) e
                    f)
            ]
      ])
