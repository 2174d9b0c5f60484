-- ===== src/Sensor/Search/Bounds.antt =====
-- The loop of `search` ends after at most 64 rounds and stays within `ROM_NO`.
use smart_home_project.Common.{
  ℕ, zero, suc, ◌+◌, ◌*◌, ◌<◌, ◌≤◌, ◌≡◌, refl, inl, inr, Bool, true, false, length, Result, ok,
  Returns, Returns->>=, Returns-mono, subst, sym, read-lt, ltb, ltb→lt, lt→ltb, ◌==◌, ◌&&◌,
  Bool-cases, ◌>>=◌, arith, if◌then◌else◌,
}
use smart_home_project.Sensor.{ds18b20_read}
use smart_home_project.Sensor.Search.{
  Search, Cursor, at_discrepancy, mark_zero, advance, take_direction, Step, broke, went, Looped,
  finished, unfinished, start, at_same, after_step, on_bits, search_round, search_loop,
}
use smart_home_project.Sensor.Search.Places.{
  HasRom, IsAt, Moved, advance-Moved, take_direction-HasRom,
}

-- What a round leaves, from bit `k` of byte `byte`.
abbrev IsRound : ℕ → ℕ → Step → Type 0
IsRound byte k (broke x) = HasRom x.1
IsRound byte k (went x) = Moved byte k x.0 × HasRom x.1

abbrev pub IsFinished : Looped → Type 0
IsFinished (finished x) = HasRom x.1
IsFinished (unfinished x) = ⊥

-- What a direction leaves.
abbrev IsPlaced : ℕ → ℕ → Cursor × Search → Type 0
IsPlaced byte k x = Moved byte k x.0 × HasRom x.1

take_direction-IsPlaced :
    (byte k direction : ℕ) (c : Cursor) (s : Search)
    → byte < 8
    → IsAt byte k c
    → HasRom s
    → Returns (IsPlaced byte k) (take_direction direction c s)
take_direction-IsPlaced byte k direction c s b a h =
    Returns-mono (λ x. (x.0 ≡ advance c) × HasRom x.1) (IsPlaced byte k)
      (take_direction direction c s)
      (take_direction-HasRom direction c s (omega (arith, a.position)) h)
      λ x e. (subst (Moved byte k) (sym e.0) (advance-Moved byte k c b a), e.1)

mark_zero-IsAt :
    (byte k direction : ℕ) (c : Cursor) (s : Search)
    → IsAt byte k c
    → HasRom s
    → IsAt byte k (mark_zero direction c s).0 × HasRom (mark_zero direction c s).1
mark_zero-IsAt byte k direction c s a h =
    let kept : IsAt byte k (record c { last_zero = c.id_bit_number }) = record {
      bit = a.bit;
      number = a.number;
      position = a.position;
      mask = a.mask;
    } in
    elim (Bool-cases (direction == 0)) [
      | inr e ↦ rw e (a, h)
      | inl e ↦ elim (Bool-cases (ltb c.id_bit_number 9)) [
        | inl f ↦ rw (e, f) (kept, h)
        | inr f ↦ rw (e, f) (kept, h)
      ]
    ]

at_discrepancy-Returns :
    (c : Cursor) (s : Search)
    → c.rom_byte_number < 8
    → HasRom s
    → Returns (λ d. Unit {0}) (at_discrepancy c s)
at_discrepancy-Returns c s i h =
    let (b, e) = read-lt s.rom_no c.rom_byte_number (omega (arith, h)) in
    elim (Bool-cases (ltb c.id_bit_number s.last_discrepancy)) [
      | inl l ↦ rw (l, e) tt
      | inr l ↦ rw l tt
    ]

at_same-IsPlaced :
    (byte k : ℕ) (c : Cursor) (s : Search)
    → byte < 8
    → IsAt byte k c
    → HasRom s
    → Returns (IsPlaced byte k) (at_same c s)
at_same-IsPlaced byte k c s b a h =
    Returns->>= (λ d. Unit {0}) (IsPlaced byte k) (at_discrepancy c s)
      (λ d. take_direction d (mark_zero d c s).0 (mark_zero d c s).1)
      (at_discrepancy-Returns c s (omega (arith, a.position)) h)
      λ d u.
        let (at, rom) = mark_zero-IsAt byte k d c s a h in
        take_direction-IsPlaced byte k d (mark_zero d c s).0 (mark_zero d c s).1 b at rom

if-Returns :
    {A : Type 0} (P : A → Type 0) (b : Bool) (m n : Result A)
    → Returns P m
    → Returns P n
    → Returns P (if b then m else n)
if-Returns P true m n h k = h
if-Returns P false m n h k = k

on_bits-IsRound :
    (byte k id_bit cmp_id_bit : ℕ) (c : Cursor) (s : Search)
    → byte < 8
    → IsAt byte k c
    → HasRom s
    → Returns (IsRound byte k) (on_bits id_bit cmp_id_bit c s)
on_bits-IsRound byte k id_bit cmp_id_bit c s b a h =
    let directed : Result (Cursor × Search) =
      if id_bit == cmp_id_bit then at_same c s else take_direction id_bit c s in
    let placed =
      if-Returns (IsPlaced byte k) (id_bit == cmp_id_bit) (at_same c s) (take_direction id_bit c s)
        (at_same-IsPlaced byte k c s b a h) (take_direction-IsPlaced byte k id_bit c s b a h) in
    if-Returns (IsRound byte k) ((id_bit == 1) && (cmp_id_bit == 1)) (ok (broke (c, s)))
      (directed >>= (λ x. ok (went x))) h
      (Returns->>= (IsPlaced byte k) (IsRound byte k) directed (λ x. ok (went x)) placed λ x p. p)

-- The rest of the loop, from any place that leaves rounds enough.
abbrev Ends : ℕ → (Cursor × Search → Result Looped) → Type 0
Ends rounds next =
    (byte k : ℕ) (x : Cursor × Search)
    → byte < 8
    → IsAt byte k x.0
    → HasRom x.1
    → 64 ≤ rounds + 8 * byte + k
    → Returns IsFinished (next x)

after_step-IsFinished :
    (rounds byte k : ℕ) (step : Step) (next : Cursor × Search → Result Looped)
    → byte < 8
    → IsRound byte k step
    → 64 ≤ suc rounds + 8 * byte + k
    → Ends rounds next
    → Returns IsFinished (after_step step next)
after_step-IsFinished rounds byte k (broke x) next b r l ends = r
after_step-IsFinished rounds byte k (went x) next b (inl a, h) l ends =
    rw (lt→ltb x.0.rom_byte_number 8 (omega (arith, a.position)))
      (ends byte (suc k) x b a h (omega arith))
after_step-IsFinished rounds byte k (went x) next b (inr (e, a), h) l ends =
    elim (Bool-cases (ltb x.0.rom_byte_number 8)) [
      | inr f ↦ rw f h
      | inl f ↦ rw f (
          ends (byte + 1) 0 x (omega (arith, a.position, ltb→lt x.0.rom_byte_number 8 f)) a h
            (omega arith))
    ]

module _ (gpio : ℕ → ℕ) where
  search_loop-IsFinished : (rounds : ℕ) → Ends rounds (search_loop gpio rounds)
  unfolding search_loop search_round
  search_loop-IsFinished zero byte k x b a h l = absurd (omega (arith, a.bit))
  search_loop-IsFinished (suc rounds) byte k x b a h l =
      let first = ds18b20_read gpio x.1.sensor in
      let second = ds18b20_read gpio first.1 in
      Returns->>= (IsRound byte k) IsFinished (search_round gpio x)
        (λ step. after_step step (search_loop gpio rounds))
        (on_bits-IsRound byte k first.0 second.0 x.0 (record x.1 { sensor = second.1 }) b a h)
        λ step r.
          after_step-IsFinished rounds byte k step (search_loop gpio rounds) b r l
            (search_loop-IsFinished rounds)

-- From its start, with a ROM number of eight bytes, the loop of `search` comes to its end within 64
-- rounds, whatever the pin shows, without an access outside `ROM_NO`, which keeps its eight bytes.
pub search_loop_ends :
    (gpio : ℕ → ℕ) (s : Search)
    → length s.rom_no ≡ 8
    → Returns IsFinished (search_loop gpio 64 (start, s))
search_loop_ends gpio s h =
    search_loop-IsFinished gpio 64 0 0 (start, s) (omega arith)
      (record { bit = omega arith; number = refl; position = refl; mask = refl }) h (omega arith)
