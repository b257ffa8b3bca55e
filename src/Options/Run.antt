-- ===== src/Options/Run.antt =====
-- How a step of the option parser ends: with a result, by exit(0), by the end of the program with an
-- error (LOG(FATAL), or a failed assert), or with a read out of bounds.
use opendcd.Prelude.{◌≡◌, subst, Bool, if◌then◌else◌}

pub data Run {ℓ} (A : Type ℓ) : Type ℓ where
  done : A → Run A
  exited fatal out_of_bounds : Run A

infixl 5 ◌>>=◌
abbrev pub ◌>>=◌ {ℓ κ} : {A : Type ℓ} {B : Type κ} → Run A → (A → Run B) → Run B
done a >>= f = f a
exited >>= f = exited
fatal >>= f = fatal
out_of_bounds >>= f = out_of_bounds

-- `a` after LOG(ERROR)
abbrev pub after_error {ℓ} : {A : Type ℓ} → Bool → A → Run A
after_error goes_on a = if goes_on then done a else fatal

pub done-eq {ℓ} : {A : Type ℓ} (a b : A) → done a ≡ done b → a ≡ b
done-eq a b e = cc

-- What holds of the result, if there is one
abbrev pub Ends : {A : Type 0} → Run A → (A → Type 0) → Type 0
Ends (done a) P = P a
Ends exited P = Unit
Ends fatal P = Unit
Ends out_of_bounds P = Unit

pub bind-Ends :
    {A B : Type 0} (m : Run A) (f : A → Run B) (P : B → Type 0)
    → ((a : A) → Ends (f a) P)
    → Ends (m >>= f) P
bind-Ends (done a) f P k = k a
bind-Ends exited f P k = tt
bind-Ends fatal f P k = tt
bind-Ends out_of_bounds f P k = tt

-- As bind-Ends, with what holds of the first step's result.
pub bind-keeps :
    {A B : Type 0} (m : Run A) (f : A → Run B) (Q : A → Type 0) (P : B → Type 0)
    → Ends m Q
    → ((a : A) → Q a → Ends (f a) P)
    → Ends (m >>= f) P
bind-keeps (done a) f Q P h k = k a h
bind-keeps exited f Q P h k = tt
bind-keeps fatal f Q P h k = tt
bind-keeps out_of_bounds f Q P h k = tt

pub Ends-done : {A : Type 0} (m : Run A) (P : A → Type 0) (a : A) → m ≡ done a → Ends m P → P a
Ends-done m P a e h = subst (λ m. Ends m P) e h
