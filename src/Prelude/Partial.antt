-- ===== src/Prelude/Partial.antt =====
-- Code that can fail: `none` is an assertion that does not hold, an access outside a buffer or an
-- exception, at which the program stops.
use mathlib.Core.Bool.{Bool, true, false}
use natbuster.Prelude.Tests.{if◌then◌else◌}
use mathlib.Core.Option.{Option, none, some}
use mathlib.Core.Path.{◌≡◌, refl, ap, subst}
use native.Mathlib.Omega.{arith}

infixl 5 ◌>>=◌ ◌>>◌
abbrev pub ◌>>=◌ {ℓ κ} : {A : Type ℓ} {B : Type κ} → Option A → (A → Option B) → Option B
none >>= f = none
some a >>= f = f a

abbrev pub ◌>>◌ {ℓ} : {B : Type ℓ} → Option (Unit {0}) → Option B → Option B
m >> k = m >>= λ _. k

-- `assert(b)`
abbrev pub assert : Bool → Option (Unit {0})
assert true = some tt
assert false = none

abbrev value_or {ℓ} : {A : Type ℓ} → A → Option A → A
value_or d none = d
value_or d (some a) = a

pub some_inj {ℓ} : {A : Type ℓ} (a b : A) → some a ≡ some b → a ≡ b
some_inj a b e = ap (value_or a) e

-- What is returned, if anything is, has the property.
abbrev pub All : {A : Type 0} → (A → Type 0) → Option A → Type 0
All P none = Unit {0}
All P (some a) = P a

pub All-some : {A : Type 0} (P : A → Type 0) (o : Option A) (a : A) → All P o → o ≡ some a → P a
All-some P none a h e = absurd (ground (arith, e))
All-some P (some b) a h e = subst P (some_inj b a e) h

pub All-bind :
    {A B : Type 0} (P : B → Type 0) (o : Option A) (k : A → Option B)
    → ((a : A) → o ≡ some a → All P (k a))
    → All P (o >>= k)
All-bind P none k h = tt
All-bind P (some a) k h = h a refl

pub All-if :
    {A : Type 0} (P : A → Type 0) (b : Bool) (r s : Option A)
    → (b ≡ true → All P r)
    → (b ≡ false → All P s)
    → All P (if b then r else s)
All-if P true r s h l = h refl
All-if P false r s h l = l refl
