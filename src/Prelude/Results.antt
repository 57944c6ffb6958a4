-- ===== src/Prelude/Results.antt =====
-- Results of code that may run into undefined behaviour of C++.
use mathlib.Core.Path.{◌≡◌, refl}
use mathlib.Core.Logic.{◌⊎◌, inl, inr}
use mathlib.Core.Option.{Option, none, some}

-- `empty_container` is `back`, `pop_back` or an index past the end of a vector or string, `empty_stack` is `top` on an
-- empty stack, `uninitialised` a read of a variable that was never set, and `overflow` a signed
-- overflow, or a number that does not fit the `int` that it is converted to. `uncaught` is an exception that nothing catches, and
-- `dangling` a use of a pointer to no handler. `unfinished` is no behaviour of the code: a loop of the model had
-- too little fuel.
pub data Fault : Type 0 where
  empty_container empty_stack uninitialised overflow uncaught dangling unfinished : Fault

pub data Result {ℓ} (A : Type ℓ) : Type ℓ where
  ok : A → Result A
  err : Fault → Result A

module _ {ℓ κ} {A : Type ℓ} {B : Type κ} where
  infixl 5 ◌>>=◌
  abbrev pub ◌>>=◌ : Result A → (A → Result B) → Result B
  err fault >>= next = err fault
  ok value >>= next = next value

  -- What a chain that went through, or that ran into a fault, says of its first step.
  pub bind-eq-ok :
      (run : Result A) (next : A → Result B) {b : B}
      → run >>= next ≡ ok b
      → (value : A) × (run ≡ ok value) × (next value ≡ ok b)
  bind-eq-ok (err fault) next through = cc
  bind-eq-ok (ok value) next through = (value, refl, through)

  pub bind-eq-err :
      (run : Result A) (next : A → Result B) {fault : Fault}
      → run >>= next ≡ err fault
      → (run ≡ err fault) ⊎ ((value : A) × (run ≡ ok value) × (next value ≡ err fault))
  bind-eq-err (err met) next broken = inl cc
  bind-eq-err (ok value) next broken = inr (value, refl, broken)

-- Chains regroup, and agree where their steps do.
pub bind_assoc {ℓ κ ι} :
    {A : Type ℓ} {B : Type κ} {C : Type ι} (run : Result A) (f : A → Result B) (g : B → Result C)
    → run >>= f >>= g ≡ run >>= λ a. f a >>= g
bind_assoc (err fault) f g = refl
bind_assoc (ok value) f g = refl

pub bind_congr {ℓ κ} :
    {A : Type ℓ} {B : Type κ} (run : Result A) {f g : A → Result B}
    → ((a : A) → f a ≡ g a)
    → run >>= f ≡ run >>= g
bind_congr (err fault) same = refl
bind_congr (ok value) same = same value

-- A value that an exception may take the place of.
abbrev pub or_uncaught {ℓ} : {A : Type ℓ} → Option A → Result A
or_uncaught none = err uncaught
or_uncaught (some a) = ok a
