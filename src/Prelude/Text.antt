-- ===== src/Prelude/Text.antt =====
-- `std::string` as a list of byte values, its equality, and `char` read as an `int`.
use Prim.Native.Char.{code}
use Prim.Native.Nat.{ℕ, ◌-◌}
use Prim.Native.String.{String}
use mathlib.Core.Bool.{Bool, true, false, ◌&&◌}
use mathlib.Core.List.{List, [], ◌∷◌, ◌++◌}
use mathlib.Core.Logic.{◌↔◌}
use mathlib.Core.Path.{◌≡◌, refl}
use native.Mathlib.Omega.{arith}
use aite_cs.Prelude.Tests.{◌==◌, ltb, if◌then◌else◌}

abbrev pub Bytes : Type 0
Bytes = List ℕ

-- The bytes of an ASCII literal.
abbrev pub codes : String → Bytes
codes String.[] = []
codes (String.◌∷◌ c s) = code c ∷ codes s

-- Literals that stand one behind the other.
abbrev pub joined : List String → Bytes
joined [] = []
joined (s ∷ ss) = codes s ++ joined ss

-- `operator==` of `std::string`.
unfoldable pub equal : Bytes → Bytes → Bool
equal [] [] = true
equal (x ∷ xs) (y ∷ ys) = x == y && equal xs ys
equal _ _ = false

pub equal_iff : (left right : Bytes) → (equal left right ≡ true) ↔ (left ≡ right)
unfolding equal
equal_iff [] right = elim right [ [] ↦ ground arith | _ ∷ _ ↦ ground arith ]
equal_iff (b ∷ bs) [] = ground arith
equal_iff (b ∷ bs) (c ∷ cs) = let rest = equal_iff bs cs in ground (arith, rest)

pub equal_refl : (a : Bytes) → equal a a ≡ true
equal_refl a = (equal_iff a a).1 refl

-- A signed integer: `negsuc n` is -(n + 1).
pub data ℤ : Type 0 where
  pos : ℕ → ℤ
  negsuc : ℕ → ℤ

-- A byte in a `char`, which is signed, promoted to `int`.
abbrev pub to_int : ℕ → ℤ
to_int c = if ltb c 128 then pos c else negsuc (255 - c)
