-- ===== src/Common/Strings.antt =====
-- Bytes, C strings and the functions of string.h and stdio.h that the firmware calls.
use Prim.Native.Nat.{ℕ, zero, suc, ◌%◌, ◌≤◌, ◌<◌}
use Prim.Native.Char.{code}
use Prim.Native.String.{String}
use mathlib.Core.Path.{◌≡◌, refl, ap}
use mathlib.Core.Logic.{◌≢◌}
use mathlib.Core.Bool.{Bool, true, false}
use mathlib.Core.Option.{some}
use mathlib.Core.List.{List, [], ◌∷◌, ◌++◌, append-nil}
use native.Mathlib.Omega.{arith}
use smart_home_project.Common.Tests.{ltb, ◌==◌, if◌then◌else◌}
use smart_home_project.Common.Lists.{
  length, drop, length-append, length-drop, All, replicate, get_elem?, get_elem?-ge,
}
use smart_home_project.Common.Fault.{Result, ok, fault, ◌>>=◌, Returns, Returns->>=}

abbrev pub Bytes : Type 0
Bytes = List ℕ

-- The code points of a text literal: its bytes, since the program's are ASCII.
abbrev pub codes : String → Bytes
codes String.[] = []
codes (String.◌∷◌ c s) = code c ∷ codes s

-- A cast to `uint8_t`.
abbrev pub u8 : ℕ → ℕ
u8 n = n % 256

-- What `%s` prints of an array: the bytes before the first zero.
abbrev pub c_str : Bytes → Bytes
c_str [] = []
c_str (zero ∷ s) = []
c_str (suc c ∷ s) = suc c ∷ c_str s

-- `strncmp(s, t, n) == 0`, for arrays that are read as far as the first difference or zero.
-- The end of a list stands for the zero behind a string.
abbrev pub strncmp_eq : ℕ → Bytes → Bytes → Bool
strncmp_eq zero s t = true
strncmp_eq (suc n) [] [] = true
strncmp_eq (suc n) [] (d ∷ t) = d == 0
strncmp_eq (suc n) (c ∷ s) [] = c == 0
strncmp_eq (suc n) (c ∷ s) (d ∷ t) =
    let rest = strncmp_eq n s t in if c == d then (if c == 0 then true else rest) else false

-- Writing `s` at the start of an array, which faults where it does not fit.
abbrev pub memcpy : Bytes → Bytes → Result Bytes
memcpy dst s = if ltb (length dst) (length s) then fault else ok (s ++ drop (length s) dst)

-- `sprintf` of the text `s`, with its closing zero.
abbrev pub sprintf : Bytes → Bytes → Result Bytes
sprintf dst s = memcpy dst (s ++ 0 ∷ [])

-- `strlen`, which runs out of the array where no zero stands in it.
unfoldable pub strlen : Bytes → Result ℕ
strlen [] = fault
strlen (zero ∷ s) = ok 0
strlen (suc c ∷ s) = strlen s >>= (λ n. ok (suc n))

abbrev pub IsNonzero : Bytes → Type 0
IsNonzero = All (λ c. c ≢ 0)

pub c_str_lem : (s : Bytes) → IsNonzero s → c_str s ≡ s
c_str_lem [] h = refl
c_str_lem (zero ∷ s) h = absurd (h.0 refl)
c_str_lem (suc c ∷ s) h = ap (◌∷◌ (suc c)) (c_str_lem s h.1)

pub length-c_str-le : (s : Bytes) → length (c_str s) ≤ length s
length-c_str-le [] = omega arith
length-c_str-le (zero ∷ s) = omega arith
length-c_str-le (suc c ∷ s) = omega (arith, length-c_str-le s)

pub All-c_str : (P : ℕ → Type 0) (s : Bytes) → All P s → All P (c_str s)
All-c_str P [] h = tt
All-c_str P (zero ∷ s) h = tt
All-c_str P (suc c ∷ s) h = (h.0, All-c_str P s h.1)

pub memcpy_fits :
    (dst s : Bytes) → length s ≤ length dst → memcpy dst s ≡ ok (s ++ drop (length s) dst)
memcpy_fits dst s h = ground arith

pub memcpy_overflow : (dst s : Bytes) → length dst < length s → memcpy dst s ≡ fault
memcpy_overflow dst s h = ground arith

pub length-memcpy :
    (dst s : Bytes) → length s ≤ length dst → length (s ++ drop (length s) dst) ≡ length dst
length-memcpy dst s h =
    omega (arith, length-append s (drop (length s) dst), length-drop (length s) dst)

-- What `%s` prints of an array that holds a string and its zero.
pub c_str-terminated : (s t : Bytes) → IsNonzero s → c_str ((s ++ 0 ∷ []) ++ t) ≡ s
c_str-terminated [] t h = refl
c_str-terminated (zero ∷ s) t h = absurd (h.0 refl)
c_str-terminated (suc c ∷ s) t h = ap (◌∷◌ (suc c)) (c_str-terminated s t h.1)

pub strlen-short :
    (s : Bytes) (m : ℕ)
    → length s < m
    → Returns (λ n. n ≤ length s) (strlen (s ++ drop (length s) (replicate m 0)))
unfolding strlen
strlen-short [] zero h = elim h [ ]
strlen-short [] (suc m) h = omega arith
strlen-short (c ∷ s) zero h = elim h [ ]
strlen-short (zero ∷ s) (suc m) h = omega arith
strlen-short (suc c ∷ s) (suc m) h =
    Returns->>= (λ n. n ≤ length s) (λ n. n ≤ suc (length s)) _ (λ n. ok (suc n))
      (strlen-short s m (omega arith)) λ n le. omega arith

pub strlen-IsNonzero : (s : Bytes) → IsNonzero s → strlen s ≡ fault
unfolding strlen
strlen-IsNonzero [] n = refl
strlen-IsNonzero (zero ∷ s) n = absurd (n.0 refl)
strlen-IsNonzero (suc c ∷ s) n = rw (strlen-IsNonzero s n.1)

pub strlen-get_elem? :
    (s : Bytes) (i : ℕ) → get_elem? s i ≡ some 0 → Returns (λ n. n ≤ i) (strlen s)
unfolding strlen
strlen-get_elem? [] i h = cc
strlen-get_elem? (zero ∷ s) i h = omega arith
strlen-get_elem? (suc c ∷ s) zero h = ground arith
strlen-get_elem? (suc c ∷ s) (suc i) h =
    Returns->>= (λ n. n ≤ i) (λ n. n ≤ suc i) (strlen s) (λ n. ok (suc n)) (strlen-get_elem? s i h)
      λ n le. omega arith

pub get_elem?-memcpy :
    (s dst : Bytes) (i : ℕ)
    → length s ≤ i
    → get_elem? (s ++ drop (length s) dst) i ≡ get_elem? dst i
get_elem?-memcpy [] dst i h = refl
get_elem?-memcpy (x ∷ s) dst zero h = elim h [ ]
get_elem?-memcpy (x ∷ s) [] (suc i) h = rw append-nil (get_elem?-ge s i (omega arith))
get_elem?-memcpy (x ∷ s) (y ∷ dst) (suc i) h = get_elem?-memcpy s dst i (omega arith)
