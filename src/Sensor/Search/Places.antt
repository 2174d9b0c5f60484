-- ===== src/Sensor/Search/Places.antt =====
-- The places of the cursor of `search` in Device1_coap/main/ds18b20.c.
use smart_home_project.Common.{
  ℕ, zero, suc, ◌+◌, ◌*◌, ◌<◌, ◌≤◌, ◌≡◌, refl, ◌∙◌, ap, inl, inr, ◌⊎◌, [], ◌∷◌, Bytes, length, ok,
  Returns, Returns->>=, read-lt, arith,
}
use smart_home_project.Sensor.Search.{Search, Cursor, store, with_bit, advance, take_direction}

abbrev pub pow2 : ℕ → ℕ
pow2 zero = 1
pow2 (suc n) = pow2 n + pow2 n

-- The cursor stands at bit `k` of byte `byte`.
pub record IsAt (byte k : ℕ) (c : Cursor) : Type 0 where
  pub bit : k < 8
  pub number : c.id_bit_number ≡ 8 * byte + k + 1
  pub position : c.rom_byte_number ≡ byte
  pub mask : c.rom_byte_mask ≡ pow2 k

abbrev pub HasRom : Search → Type 0
HasRom s = length s.rom_no ≡ 8

store_lem :
    (i b : ℕ) (xs : Bytes) → i < length xs → Returns (λ ys. length ys ≡ length xs) (store i b xs)
store_lem i b [] h = elim h [ ]
store_lem zero b (x ∷ xs) h = refl
store_lem (suc i) b (x ∷ xs) h =
    Returns->>= (λ ys. length ys ≡ length xs) (λ ys. length ys ≡ suc (length xs)) (store i b xs)
      (λ ys. ok (x ∷ ys)) (store_lem i b xs (omega arith)) λ ys e. ap suc e

-- A direction is taken within the array, and moves the cursor.
pub take_direction-HasRom :
    (direction : ℕ) (c : Cursor) (s : Search)
    → c.rom_byte_number < 8
    → HasRom s
    → Returns (λ x. (x.0 ≡ advance c) × HasRom x.1) (take_direction direction c s)
unfolding take_direction
take_direction-HasRom direction c s i h =
    let (b, e) = read-lt s.rom_no c.rom_byte_number (omega (arith, h)) in
    rw e (
      Returns->>= (λ ys. length ys ≡ length s.rom_no) (λ x. (x.0 ≡ advance c) × HasRom x.1)
        (store c.rom_byte_number (with_bit b c.rom_byte_mask direction) s.rom_no) _
        (store_lem c.rom_byte_number (with_bit b c.rom_byte_mask direction) s.rom_no
          (omega (arith, h)))
        λ ys q. (refl, q ∙ h))

pow2_pos : (k : ℕ) → 1 ≤ pow2 k
pow2_pos zero = omega arith
pow2_pos (suc k) = omega (arith, pow2_pos k)

pow2_small : (k : ℕ) → k < 7 → pow2 k ≤ 64
pow2_small zero h = omega arith
pow2_small (suc zero) h = omega arith
pow2_small (suc (suc zero)) h = omega arith
pow2_small (suc (suc (suc zero))) h = omega arith
pow2_small (suc (suc (suc (suc zero)))) h = omega arith
pow2_small (suc (suc (suc (suc (suc zero))))) h = omega arith
pow2_small (suc (suc (suc (suc (suc (suc zero)))))) h = omega arith
pow2_small (suc (suc (suc (suc (suc (suc (suc k))))))) h = absurd (omega arith)

-- The next place of the cursor: the next bit, or the first of the next byte.
abbrev pub Moved : ℕ → ℕ → Cursor → Type 0
Moved byte k c = IsAt byte (suc k) c ⊎ ((k ≡ 7) × IsAt (byte + 1) 0 c)

last_or_before : (k : ℕ) → k < 8 → (k < 7) ⊎ (k ≡ 7)
last_or_before k h = ground arith

pub advance-Moved : (byte k : ℕ) (c : Cursor) → byte < 8 → IsAt byte k c → Moved byte k (advance c)
advance-Moved byte k c b a = elim (last_or_before k a.bit) [
  | inl l ↦ inl (record {
    bit = omega arith;
    number = omega (arith, a.number);
    position = ground (arith, pow2_pos k, pow2_small k l);
    mask = ground (arith, pow2_pos k, pow2_small k l);
  })
  | inr e ↦ inr (
    e,
    record {
      bit = omega arith;
      number = omega (arith, a.number);
      position = ground (arith, a.mask ∙ ap pow2 e);
      mask = ground (arith, a.mask ∙ ap pow2 e);
    },
  )
]
