-- ===== src/HomeCenter/Http/Scan.antt =====
-- The loop of `client_event_post_handler` reads its array by index. Here it is the same loop over
-- the part of the array that is left, and texts with no comma are passed over.
use smart_home_project.Common.{
  ℕ, zero, suc, ◌+◌, ◌≡◌, ◌≢◌, refl, ◌∙◌, [], ◌∷◌, ◌++◌, Bytes, read, Result, ok, fault, ◌>>=◌,
  >>=-ext, ◌==◌, ==_ne, if◌then◌else◌, length, All, arith,
}
use native.Mathlib.Nat.{suc-add, zero-add}
use smart_home_project.HomeCenter.Http.{Http, at_comma, scan}

unfoldable pub scan_list : Bytes → ℕ → Http → Result Http
scan_list s zero h = ok h
scan_list [] (suc left) h = fault
scan_list (c ∷ s) (suc left) h = do
  h' ← if c == b',' then at_comma (c ∷ s) 0 h else ok h
  scan_list s left h'

read-head : (x : ℕ) (s : Bytes) (i : ℕ) → read (x ∷ s) (i + 1) ≡ read s i
read-head x s i = let e : i + 1 ≡ suc i = omega arith in rw e

read-suc : (x : ℕ) (s : Bytes) (i k : ℕ) → read (x ∷ s) (i + 1 + k) ≡ read s (i + k)
read-suc x s i k = let e : i + 1 + k ≡ suc (i + k) = omega arith in rw e

at_comma-shift :
    (x : ℕ) (s : Bytes) (i : ℕ) (h : Http) → at_comma (x ∷ s) (i + 1) h ≡ at_comma s i h
unfolding at_comma
at_comma-shift x s i h = rw (read-suc x s i 2, read-suc x s i 13, read-suc x s i 10)

scan-shift :
    (x : ℕ) (s : Bytes) (left i : ℕ) (h : Http) → scan (x ∷ s) left (i + 1) h ≡ scan s left i h
unfolding scan
scan-shift x s zero i h = refl
scan-shift x s (suc left) i h =
    rw (read-head x s i, at_comma-shift x s i h)
      (>>=-ext (read s i) _ _ λ c.
        >>=-ext (if c == b',' then at_comma s i h else ok h) _ _
          λ h'. scan-shift x s left (i + 1) h')

pub scan-eq-scan_list : (s : Bytes) (left : ℕ) (h : Http) → scan s left 0 h ≡ scan_list s left h
unfolding scan scan_list
scan-eq-scan_list s zero h = refl
scan-eq-scan_list [] (suc left) h = refl
scan-eq-scan_list (c ∷ s) (suc left) h =
    >>=-ext (if c == b',' then at_comma (c ∷ s) 0 h else ok h) _ _
      λ h'. scan-shift c s left 0 h' ∙ scan-eq-scan_list s left h'

-- A text without a comma.
abbrev pub NoComma : Bytes → Type 0
NoComma = All (λ c. c ≢ b',')

pub scan_list-NoComma :
    (xs s : Bytes) (left : ℕ) (h : Http)
    → NoComma xs
    → scan_list (xs ++ s) (length xs + left) h ≡ scan_list s left h
unfolding scan_list
scan_list-NoComma [] s left h n = rw zero-add
scan_list-NoComma (x ∷ xs) s left h n =
    rw (suc-add, ==_ne x b',' n.0) (scan_list-NoComma xs s left h n.1)
