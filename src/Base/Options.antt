-- ===== src/Base/Options.antt =====
-- Calls that return or raise, where the exception is not told apart.
use mathlib.Core.Path.{◌≡◌, refl}
use mathlib.Core.Option.{Option, none, some}

infixl 5 ◌>>=◌
abbrev pub ◌>>=◌ {ℓ} : {A B : Type ℓ} → Option A → (A → Option B) → Option B
none >>= f = none
some a >>= f = f a

abbrev pub option_map {ℓ} : {A B : Type ℓ} → (A → B) → Option A → Option B
option_map f none = none
option_map f (some a) = some (f a)

-- A call that returned, of which the first part returned too.
pub bind_some :
    {A B : Type 0} (o : Option A) (f : A → Option B) (b : B)
    → (o >>= f) ≡ some b
    → (a : A) × (o ≡ some a) × (f a ≡ some b)
bind_some none f b h = absurd (cc (h))
bind_some (some a) f b h = (a, refl, h)
