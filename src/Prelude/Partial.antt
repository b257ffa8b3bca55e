-- ===== src/Prelude/Partial.antt =====
-- Chains of steps that may fail, as Option.
use mathlib.Core.Option.{Option, none, some}
use mathlib.Core.Path.{◌≡◌, subst}

infixl 5 ◌>>=◌
abbrev pub ◌>>=◌ {ℓ κ} : {A : Type ℓ} {B : Type κ} → Option A → (A → Option B) → Option B
some a >>= f = f a
none >>= f = none

-- What holds of the result, if there is one
abbrev pub Ends : {A : Type 0} → Option A → (A → Type 0) → Type 0
Ends (some a) P = P a
Ends none P = Unit

pub bind-Ends :
    {A B : Type 0} (m : Option A) (f : A → Option B) (Q : A → Type 0) (P : B → Type 0)
    → Ends m Q
    → ((a : A) → Q a → Ends (f a) P)
    → Ends (m >>= f) P
bind-Ends (some a) f Q P h k = k a h
bind-Ends none f Q P h k = tt

pub Ends-some : {A : Type 0} (m : Option A) (P : A → Type 0) (a : A) → m ≡ some a → Ends m P → P a
Ends-some m P a e h = subst (λ m. Ends m P) e h
