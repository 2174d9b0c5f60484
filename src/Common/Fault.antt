-- ===== src/Common/Fault.antt =====
-- The outcome of code that may stop: a value; `fault`, where C has undefined behaviour, as at an
-- access outside an array; or `abort`, where ESP_ERROR_CHECK meets an error and restarts the chip.
use Prim.Native.Nat.{ℕ, ◌<◌}
use mathlib.Core.Path.{◌≡◌, refl, ap}
use mathlib.Core.List.{List}
use mathlib.Core.Option.{Option, none, some}
use smart_home_project.Common.Lists.{length, get_elem?, get_elem?-lt}

pub data Result {ℓ} (A : Type ℓ) : Type ℓ where
  ok : A → Result A
  fault : Result A
  abort : Result A

infixl 5 ◌>>=◌
abbrev pub ◌>>=◌ {ℓ κ} : {A : Type ℓ} {B : Type κ} → Result A → (A → Result B) → Result B
ok a >>= f = f a
fault >>= f = fault
abort >>= f = abort

abbrev pub or_fault {ℓ} : {A : Type ℓ} → Option A → Result A
or_fault none = fault
or_fault (some a) = ok a

-- `a[i]`
abbrev pub read {ℓ} : {A : Type ℓ} → List A → ℕ → Result A
read a i = or_fault (get_elem? a i)

pub >>=-ext {ℓ κ} :
    {A : Type ℓ} {B : Type κ} (m : Result A) (f g : A → Result B)
    → ((a : A) → f a ≡ g a)
    → (m >>= f) ≡ (m >>= g)
>>=-ext (ok a) f g h = h a
>>=-ext fault f g h = refl
>>=-ext abort f g h = refl

pub read-lt {ℓ} : {A : Type ℓ} (a : List A) (i : ℕ) → i < length a → (x : A) × (read a i ≡ ok x)
read-lt a i h = let (x, e) = get_elem?-lt a i h in (x, ap or_fault e)

-- The code returns, with a value of which `P` holds.
abbrev pub Returns {ℓ} : {A : Type ℓ} → (A → Type 0) → Result A → Type 0
Returns P (ok a) = P a
Returns P fault = ⊥
Returns P abort = ⊥

pub Returns->>= {ℓ} :
    {A B : Type ℓ} (P : A → Type 0) (Q : B → Type 0) (m : Result A) (f : A → Result B)
    → Returns P m
    → ((a : A) → P a → Returns Q (f a))
    → Returns Q (m >>= f)
Returns->>= P Q (ok a) f h k = k a h
Returns->>= P Q fault f h k = absurd h
Returns->>= P Q abort f h k = absurd h

pub Returns-mono {ℓ} :
    {A : Type ℓ} (P Q : A → Type 0) (m : Result A)
    → Returns P m
    → ((a : A) → P a → Q a)
    → Returns Q m
Returns-mono P Q (ok a) h k = k a h
Returns-mono P Q fault h k = absurd h
Returns-mono P Q abort h k = absurd h

pub Returns-ok {ℓ} :
    {A : Type ℓ} (P : A → Type 0) (m : Result A) → Returns P m → (a : A) × (m ≡ ok a) × P a
Returns-ok P (ok a) h = (a, refl, h)
Returns-ok P fault h = absurd h
Returns-ok P abort h = absurd h

-- Where the code returns, it does so with a value of which `P` holds.
abbrev pub Ensures {ℓ} : {A : Type ℓ} → (A → Type 0) → Result A → Type 0
Ensures P (ok a) = P a
Ensures P fault = Unit {0}
Ensures P abort = Unit {0}

pub Ensures->>= {ℓ} :
    {A B : Type ℓ} (P : A → Type 0) (Q : B → Type 0) (m : Result A) (f : A → Result B)
    → Ensures P m
    → ((a : A) → P a → Ensures Q (f a))
    → Ensures Q (m >>= f)
Ensures->>= P Q (ok a) f h k = k a h
Ensures->>= P Q fault f h k = tt
Ensures->>= P Q abort f h k = tt

pub Ensures-any {ℓ} : {A : Type ℓ} (m : Result A) → Ensures (λ a. Unit {0}) m
Ensures-any (ok a) = tt
Ensures-any fault = tt
Ensures-any abort = tt

pub Ensures-ok {ℓ} :
    {A : Type ℓ} (P : A → Type 0) (m : Result A) (a : A) → Ensures P m → m ≡ ok a → P a
Ensures-ok P m a h e = rw e at h

pub Returns-Ensures {ℓ} : {A : Type ℓ} (P : A → Type 0) (m : Result A) → Returns P m → Ensures P m
Returns-Ensures P (ok a) h = h
Returns-Ensures P fault h = tt
Returns-Ensures P abort h = tt
