-- ===== src/Sensor/Crc.antt =====
-- `ds18b20_crc8` against the polynomial that its comment names.
use smart_home_project.Common.{
  ℕ, zero, suc, ◌+◌, ◌/◌, ◌%◌, ◌<◌, ◌≤◌, ◌⊎◌, ◌≡◌, refl, ◌∙◌, ap, inl, inr, ◌++◌, [], ◌∷◌, Bool,
  true, false, ◌&&◌, Bytes, take, get_or, All, Bool-cases, ◌==◌, ==_iff, ==_refl, if◌then◌else◌,
  arith,
}
use smart_home_project.Sensor.{
  xor_bits, by_table, crc_loop, ds18b20_crc8, ds18b20_is_all_zeros, is_sound,
}

-- One bit of the division by X^8 + X^5 + X^4 + 1, least significant bit first.
abbrev pub shift : ℕ → ℕ
unfolding xor_bits
shift x = if x % 2 == 1 then xor_bits 8 (x / 2) 140 else x / 2

abbrev pub shifts : ℕ → ℕ → ℕ
shifts zero x = x
shifts (suc n) x = shifts n (shift x)

-- The remainder, a byte at a time.
abbrev pub remainder : Bytes → ℕ → ℕ
remainder [] crc = crc
remainder (b ∷ bs) crc = remainder bs (shifts 8 (xor_bits 8 b crc))

abbrev pow2 : ℕ → ℕ
pow2 zero = 1
pow2 (suc n) = pow2 n + pow2 n

xor_bits-lt : (n a b : ℕ) → xor_bits n a b < pow2 n
unfolding xor_bits
xor_bits-lt zero a b = omega arith
xor_bits-lt (suc n) a b = omega (arith, xor_bits-lt n (a / 2) (b / 2))

abbrev all_below : ℕ → (ℕ → Bool) → Bool
all_below zero p = true
all_below (suc n) p = let rest = all_below n p in p n && rest

and_true : (a b : Bool) → (a && b) ≡ true → (a ≡ true) × (b ≡ true)
and_true true b h = (refl, h)
and_true false b h = cc

le_cases : (x n : ℕ) → x ≤ n → (x ≡ n) ⊎ (x < n)
le_cases x n h = ground arith

all_below-at : (n : ℕ) (p : ℕ → Bool) → all_below n p ≡ true → (x : ℕ) → x < n → p x ≡ true
all_below-at zero p h x l = elim l [ ]
all_below-at (suc n) p h x l = elim (le_cases x n (omega arith)) [
  | inl e ↦ rw e (and_true (p n) _ h).0
  | inr m ↦ all_below-at n p (and_true (p n) _ h).1 x m
]

table_check : all_below 256 (λ x. by_table x == shifts 8 x) ≡ true
unfolding by_table xor_bits
table_check = refl

by_table-shifts : (x : ℕ) → x < 256 → by_table x ≡ shifts 8 x
by_table-shifts x h =
    (==_iff (by_table x) (shifts 8 x)).0
      (all_below-at 256 (λ y. by_table y == shifts 8 y) table_check x h)

crc_loop-remainder : (bs : Bytes) (crc : ℕ) → crc_loop bs crc ≡ remainder bs crc
unfolding crc_loop
crc_loop-remainder [] crc = refl
crc_loop-remainder (b ∷ bs) crc =
    let x = xor_bits 8 b crc in
    crc_loop-remainder bs (by_table x)
    ∙ ap (remainder bs) (by_table-shifts x (omega (arith, xor_bits-lt 8 b crc)))

-- `ds18b20_crc8`, with its table of 32 entries, computes the remainder of the first bytes by the
-- polynomial, bit by bit, for any bytes and any length; a length beyond the bytes counts all of them.
pub crc8-remainder : (addr : Bytes) (len : ℕ) → ds18b20_crc8 addr len ≡ remainder (take len addr) 0
unfolding ds18b20_crc8
crc8-remainder addr len = crc_loop-remainder (take len addr) 0

xor_bits_self : (n a : ℕ) → xor_bits n a a ≡ 0
unfolding xor_bits
xor_bits_self zero a = refl
xor_bits_self (suc n) a = omega (arith, xor_bits_self n (a / 2))

crc_loop-append :
    (xs bs : Bytes) (crc : ℕ) → crc_loop (xs ++ bs) crc ≡ crc_loop bs (crc_loop xs crc)
unfolding crc_loop
crc_loop-append [] bs crc = refl
crc_loop-append (a ∷ xs) bs crc = crc_loop-append xs bs (by_table (xor_bits 8 a crc))

-- Bytes followed by their own CRC have the CRC 0.
pub crc_residue : (bs : Bytes) → crc_loop (bs ++ crc_loop bs 0 ∷ []) 0 ≡ 0
unfolding crc_loop by_table xor_bits
crc_residue bs =
    crc_loop-append bs (crc_loop bs 0 ∷ []) 0 ∙ ap by_table (xor_bits_self 8 (crc_loop bs 0))

is_all_zeros_lem : (pad : Bytes) → ds18b20_is_all_zeros pad ≡ true → All (λ b. b ≡ 0) pad
unfolding ds18b20_is_all_zeros
is_all_zeros_lem [] e = tt
is_all_zeros_lem (b ∷ pad) e = ground (arith, is_all_zeros_lem pad)

-- A scratchpad that is not all zeros and whose ninth byte is the remainder of the first eight.
pub record IsIntact (pad : Bytes) : Type 0 where
  pub nonzero : ¬ All (λ b. b ≡ 0) pad
  pub crc : remainder (take 8 pad) 0 ≡ get_or pad 8 0

pub IsIntact-is_sound : (pad : Bytes) → IsIntact pad → is_sound pad ≡ true
unfolding is_sound
IsIntact-is_sound pad s = elim (Bool-cases (ds18b20_is_all_zeros pad)) [
  | inl e ↦ absurd (s.nonzero (is_all_zeros_lem pad e))
  | inr e ↦ rw (e, crc8-remainder pad 8, s.crc) (==_refl (get_or pad 8 0))
]
