-- ===== src/Common/Decimal.antt =====
-- `%d` of a number that is not negative.
use Prim.Native.Nat.{ℕ, zero, suc, ◌+◌, ◌/◌, ◌%◌, ◌≤◌, ◌<◌}
use mathlib.Core.Path.{◌≡◌}
use mathlib.Core.Logic.{◌≢◌}
use mathlib.Core.List.{[], ◌∷◌, ◌++◌}
use native.Mathlib.Omega.{arith}
use mathlib.Core.Logic.{inl, inr}
use smart_home_project.Common.Tests.{ltb, ltb→lt, ltb-false, lt→ltb, if◌then◌else◌, Bool-cases}
use smart_home_project.Common.Lists.{length, length-append, All-append}
use smart_home_project.Common.Strings.{Bytes, IsNonzero}

-- The digits of `n`, at most as many as the fuel.
pub decimal_fuel : ℕ → ℕ → Bytes
decimal_fuel zero n = []
decimal_fuel (suc f) n =
    let front = decimal_fuel f (n / 10) in
    if ltb n 10 then (b'0' + n) ∷ [] else front ++ (b'0' + n % 10) ∷ []

-- A number below 10 ^ 10, as every `int` is.
unfoldable pub decimal : ℕ → Bytes
unfolding decimal_fuel
decimal n = decimal_fuel 10 n

pub decimal_one : (n : ℕ) → n < 10 → decimal n ≡ (b'0' + n) ∷ []
unfolding decimal
decimal_one n h = rw (lt→ltb n 10 h)

pub decimal_two : (n : ℕ) → 10 ≤ n → n < 100 → decimal n ≡ (b'0' + n / 10) ∷ (b'0' + n % 10) ∷ []
unfolding decimal
decimal_two n h k = rw (ltb-false n 10 h, lt→ltb (n / 10) 10 (omega arith))

pub decimal_three :
    (n : ℕ)
    → 100 ≤ n
    → n < 1000
    → decimal n ≡ (b'0' + n / 10 / 10) ∷ (b'0' + n / 10 % 10) ∷ (b'0' + n % 10) ∷ []
unfolding decimal
decimal_three n h k = rw (
  ltb-false n 10 (omega arith),
  ltb-false (n / 10) 10 (omega arith),
  lt→ltb (n / 10 / 10) 10 (omega arith),
)

decimal_fuel-IsNonzero : (f n : ℕ) → IsNonzero (decimal_fuel f n)
unfolding decimal_fuel
decimal_fuel-IsNonzero zero n = tt
decimal_fuel-IsNonzero (suc f) n = elim (Bool-cases (ltb n 10)) [
  | inl e ↦ rw e (omega arith, tt)
  | inr e ↦ rw e (
      All-append (λ c. c ≢ 0) (decimal_fuel f (n / 10)) _ (decimal_fuel-IsNonzero f (n / 10))
        (omega arith, tt))
]

pub decimal-IsNonzero : (n : ℕ) → IsNonzero (decimal n)
unfolding decimal
decimal-IsNonzero n = decimal_fuel-IsNonzero 10 n

pub length-decimal-le : (n : ℕ) → n < 1000 → length (decimal n) ≤ 3
length-decimal-le n h = elim (Bool-cases (ltb n 10)) [
  | inl e ↦ rw (decimal_one n (ltb→lt n 10 e)) (omega arith)
  | inr e ↦ elim (Bool-cases (ltb n 100)) [
    | inl e' ↦ rw (decimal_two n (ground arith) (ltb→lt n 100 e')) (omega arith)
    | inr e' ↦ rw (decimal_three n (ground arith) h) (omega arith)
  ]
]

one-le-length-decimal_fuel : (f n : ℕ) → 1 ≤ length (decimal_fuel (suc f) n)
unfolding decimal_fuel
one-le-length-decimal_fuel f n = elim (Bool-cases (ltb n 10)) [
  | inl e ↦ rw e (omega arith)
  | inr e ↦ rw e (omega (arith, length-append (decimal_fuel f (n / 10)) ((b'0' + n % 10) ∷ [])))
]

pub three-le-length-decimal : (n : ℕ) → 100 ≤ n → 3 ≤ length (decimal n)
unfolding decimal
three-le-length-decimal n h =
    rw (ltb-false n 10 (omega arith), ltb-false (n / 10) 10 (omega arith))
      (omega (
        arith,
        length-append (decimal_fuel 8 (n / 10 / 10) ++ (b'0' + n / 10 % 10) ∷ [])
            ((b'0' + n % 10) ∷ []),
        length-append (decimal_fuel 8 (n / 10 / 10)) ((b'0' + n / 10 % 10) ∷ []),
        one-le-length-decimal_fuel 7 (n / 10 / 10),
      ))
