-- ===== src/Device2/Print.antt =====
-- The text of a temperature in its ten bytes.
use smart_home_project.Common.{
  ℕ, ◌+◌, ◌*◌, ◌/◌, ◌%◌, ◌≤◌, ◌<◌, ◌≡◌, ◌≢◌, ◌++◌, [], ◌∷◌, codes, c_str, c_str-terminated,
  IsNonzero, All-append, length, length-append, replicate, decimal, decimal_one, decimal_two,
  decimal-IsNonzero, three-le-length-decimal, memcpy_fits, memcpy_overflow, Returns, fault,
  Bool-cases, ltb, ltb→lt, inl, inr, arith,
}
use smart_home_project.Device2.Main.{print_f, read_data_ds18b20_task, four_digits}

print_f-IsNonzero : (t : ℕ) → IsNonzero (print_f t)
unfolding print_f
print_f-IsNonzero t =
    All-append (λ c. c ≢ 0) (decimal (t / 16)) _ (decimal-IsNonzero (t / 16)) (omega arith)

length-decimal_short : (n : ℕ) → n < 100 → length (decimal n) ≤ 2
length-decimal_short n h = elim (Bool-cases (ltb n 10)) [
  | inl e ↦ rw (decimal_one n (ltb→lt n 10 e)) (omega arith)
  | inr e ↦ rw (decimal_two n (ground arith) h) (omega arith)
]

length-print_f : (t : ℕ) → length (print_f t ++ 0 ∷ []) ≡ length (decimal (t / 16)) + 8
unfolding print_f
length-print_f t = omega (
  arith,
  length-append (print_f t) (0 ∷ []),
  length-append (decimal (t / 16)) (b'.' ∷ (four_digits (t % 16 * 625) ++ codes "00")),
)

-- A temperature below 100 degrees is queued as its text, in the ten bytes of the array.
pub below_hundred_fits :
    (t : ℕ) → t < 1600 → Returns (λ b. c_str b ≡ print_f t) (read_data_ds18b20_task t)
unfolding read_data_ds18b20_task
below_hundred_fits t h =
    rw
      (memcpy_fits (replicate 10 0) (print_f t ++ 0 ∷ [])
        (omega (arith, length-print_f t, length-decimal_short (t / 16) (omega arith))))
      (c_str-terminated (print_f t) _ (print_f-IsNonzero t))

-- From 100 degrees on the text and its zero do not fit, and the task writes past the array.
pub hundred_overflow : (t : ℕ) → 1600 ≤ t → read_data_ds18b20_task t ≡ fault
unfolding read_data_ds18b20_task
hundred_overflow t low =
    memcpy_overflow (replicate 10 0) (print_f t ++ 0 ∷ [])
      (omega (arith, length-print_f t, three-le-length-decimal (t / 16) (omega arith)))
