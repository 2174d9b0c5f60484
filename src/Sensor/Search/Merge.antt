-- ===== src/Sensor/Search/Merge.antt =====
-- `ROM_NO` while `search` replaces its bits one after the other.
use smart_home_project.Common.{
  ℕ, zero, suc, ◌+◌, ◌*◌, ◌/◌, ◌%◌, ◌<◌, ◌≡◌, refl, sym, ap, ap₂, [], ◌∷◌, Bytes, length, All,
  Result, ok, ◌>>=◌, read, get_or, arith,
}
use smart_home_project.HomeCenter.Types.{IsByte}
use smart_home_project.Sensor.Search.{store, with_bit}
use smart_home_project.Sensor.Search.Places.{pow2}

-- Bit `k` of byte `i` of a ROM number.
abbrev pub rom_bit : Bytes → ℕ → ℕ → ℕ
rom_bit rom i k = get_or rom i 0 / pow2 k % 2

-- A byte whose lowest `k` bits were replaced by those of another.
abbrev pub merged : ℕ → ℕ → ℕ → ℕ
merged k old new = new % pow2 k + old / pow2 k * pow2 k

merged_next :
    (k old new : ℕ)
    → k < 8
    → with_bit (merged k old new) (pow2 k) (new / pow2 k % 2) ≡ merged (suc k) old new
merged_next zero old new h = ground arith
merged_next (suc zero) old new h = ground arith
merged_next (suc (suc zero)) old new h = ground arith
merged_next (suc (suc (suc zero))) old new h = ground arith
merged_next (suc (suc (suc (suc zero)))) old new h = ground arith
merged_next (suc (suc (suc (suc (suc zero))))) old new h = ground arith
merged_next (suc (suc (suc (suc (suc (suc zero)))))) old new h = ground arith
merged_next (suc (suc (suc (suc (suc (suc (suc zero))))))) old new h = ground arith
merged_next (suc (suc (suc (suc (suc (suc (suc (suc k)))))))) old new h = absurd (omega arith)

-- `ROM_NO` once the search stands at bit `k` of byte `i`.
abbrev pub blended : ℕ → ℕ → Bytes → Bytes → Bytes
blended i k [] old = old
blended i k (b ∷ rom) [] = []
blended zero k (b ∷ rom) (o ∷ old) = merged k o b ∷ old
blended (suc i) k (b ∷ rom) (o ∷ old) = b ∷ blended i k rom old

-- The byte that the search changes next.
abbrev pub current : ℕ → ℕ → Bytes → Bytes → ℕ
current i k rom old = merged k (get_or old i 0) (get_or rom i 0)

read-blended :
    (i k : ℕ) (rom old : Bytes)
    → i < length rom
    → length old ≡ length rom
    → read (blended i k rom old) i ≡ ok (current i k rom old)
read-blended i k [] old h e = absurd (omega (arith, h))
read-blended i k (b ∷ rom) [] h e = absurd (omega (arith, e))
read-blended zero k (b ∷ rom) (o ∷ old) h e = refl
read-blended (suc i) k (b ∷ rom) (o ∷ old) h e =
    read-blended i k rom old (omega (arith, h)) (omega (arith, e))

store-blended :
    (i k w : ℕ) (rom old : Bytes)
    → i < length rom
    → length old ≡ length rom
    → w ≡ current i (suc k) rom old
    → store i w (blended i k rom old) ≡ ok (blended i (suc k) rom old)
store-blended i k w [] old h e m = absurd (omega (arith, h))
store-blended i k w (b ∷ rom) [] h e m = absurd (omega (arith, e))
store-blended zero k w (b ∷ rom) (o ∷ old) h e m = ap (λ x. ok (x ∷ old)) m
store-blended (suc i) k w (b ∷ rom) (o ∷ old) h e m =
    ap (λ r. r >>= (λ ys. ok (b ∷ ys)))
      (store-blended i k w rom old (omega (arith, h)) (omega (arith, e)) m)

merged_all : (old new : ℕ) → IsByte old → IsByte new → merged 8 old new ≡ new
merged_all old new h k = omega (arith, h, k)

merged_none : (old new : ℕ) → merged 0 old new ≡ old
merged_none old new = omega arith

pub blended_start : (rom old : Bytes) → length old ≡ length rom → blended 0 0 rom old ≡ old
blended_start [] old e = refl
blended_start (b ∷ rom) [] e = refl
blended_start (b ∷ rom) (o ∷ old) e = ap (λ x. x ∷ old) (merged_none o b)

pub blended_next_byte :
    (i : ℕ) (rom old : Bytes)
    → length old ≡ length rom
    → All IsByte rom
    → All IsByte old
    → blended i 8 rom old ≡ blended (suc i) 0 rom old
blended_next_byte i [] old e h k = refl
blended_next_byte i (b ∷ rom) [] e h k = refl
blended_next_byte zero (b ∷ rom) (o ∷ old) e h k =
    ap₂ ◌∷◌ (merged_all o b k.0 h.0) (sym (blended_start rom old (omega (arith, e))))
blended_next_byte (suc i) (b ∷ rom) (o ∷ old) e h k =
    ap (λ x. b ∷ x) (blended_next_byte i rom old (omega (arith, e)) h.1 k.1)

pub blended_all :
    (i : ℕ) (rom old : Bytes) → length old ≡ length rom → length rom ≡ i → blended i 0 rom old ≡ rom
blended_all i [] [] e h = refl
blended_all i [] (o ∷ old) e h = absurd (omega (arith, e))
blended_all i (b ∷ rom) [] e h = absurd (omega (arith, e))
blended_all zero (b ∷ rom) (o ∷ old) e h = absurd (omega (arith, h))
blended_all (suc i) (b ∷ rom) (o ∷ old) e h =
    ap (λ x. b ∷ x) (blended_all i rom old (omega (arith, e)) (omega (arith, h)))

-- What `take_direction` does to `ROM_NO`.
abbrev pub stored {ℓ} : {A : Type ℓ} → ℕ → ℕ → ℕ → Bytes → (Bytes → Result A) → Result A
stored position mask direction xs f =
    read xs position >>= (λ b. store position (with_bit b mask direction) xs >>= f)

pub stored-blended {ℓ} :
    {A : Type ℓ} (position mask direction i k : ℕ) (xs rom old : Bytes) (f : Bytes → Result A)
    → position ≡ i
    → mask ≡ pow2 k
    → direction ≡ rom_bit rom i k
    → xs ≡ blended i k rom old
    → k < 8
    → i < length rom
    → length old ≡ length rom
    → stored position mask direction xs f ≡ f (blended i (suc k) rom old)
stored-blended position mask direction i k xs rom old f p m d x h j e =
    rw (p, m, d, x, read-blended i k rom old j e)
      (ap (λ r. r >>= f)
        (store-blended i k _ rom old j e (merged_next k (get_or old i 0) (get_or rom i 0) h)))
