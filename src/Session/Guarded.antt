-- ===== src/Session/Guarded.antt =====
-- What never goes wrong: no callback of a run uses a pointer to no handler, and no loop lacks fuel.
pub mod Reading
pub mod Handling
pub mod Running
use aite_cs.Prelude.{
  or_uncaught, Option, none, some, Result, Fault, ok, err, ◌>>=◌, dangling, unfinished, ◌≡◌, ◌≢◌,
  refl, subst,
}

abbrev pub IsMild : Fault → Type 0
IsMild fault = (fault ≢ dangling) × (fault ≢ unfinished)

-- Any fault is a mild one.
abbrev pub IsGuarded {ℓ} : {A : Type ℓ} → Result A → Type 0
IsGuarded (ok _) = Unit
IsGuarded (err fault) = IsMild fault

pub bind-IsGuarded {ℓ κ} :
    {A : Type ℓ} {B : Type κ} (run : Result A) (next : A → Result B)
    → IsGuarded run
    → ((a : A) → run ≡ ok a → IsGuarded (next a))
    → IsGuarded (run >>= next)
bind-IsGuarded (ok a) next g h = h a refl
bind-IsGuarded (err fault) next g h = g

pub IsGuarded-err {ℓ} :
    {A : Type ℓ} (run : Result A) {fault : Fault} → IsGuarded run → run ≡ err fault → IsMild fault
IsGuarded-err (ok a) g e = absurd (cc)
IsGuarded-err (err f) {fault} g e = let same : f ≡ fault = cc in subst IsMild same g

pub or_uncaught-IsGuarded : {A : Type 0} (o : Option A) → IsGuarded (or_uncaught o)
or_uncaught-IsGuarded none = ((λ e. cc), λ e. cc)
or_uncaught-IsGuarded (some a) = tt
