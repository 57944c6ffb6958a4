-- ===== src/Standard/Ints.antt =====
-- Decimal numbers as `std::stoi` and `std::atoi` read them, into an `int` of 32 bits.
use aite_cs.Prelude.{
  ℕ, ◌+◌, ◌-◌, ◌*◌, ◌^◌, ◌≤◌, Bool, true, ◌&&◌, ◌||◌, [], ◌∷◌, Option, none, some, Bytes, All, leb,
  ◌==◌, if◌then◌else◌, ℤ, pos, negsuc, Result, ok, err, overflow, ◌≡◌, ◌≢◌, refl, arith,
}

abbrev pub int_max : ℕ
int_max = 2 ^ 31 - 1

abbrev pub is_digit : ℕ → Bool
is_digit c = leb b'0' c && leb c b'9'

-- `isspace` in the C locale.
abbrev pub is_space : ℕ → Bool
is_space c = c == b' ' || leb b'\t' c && leb c b'\r'

abbrev pub skip_spaces : Bytes → Bytes
skip_spaces [] = []
skip_spaces (c ∷ cs) = if is_space c then skip_spaces cs else c ∷ cs

-- The digits in front, added up after `n`.
abbrev pub leading : ℕ → Bytes → ℕ
leading n [] = n
leading n (c ∷ cs) = if is_digit c then leading (n * 10 + c - b'0') cs else n

unfoldable pub unsigned : Bytes → Option ℕ
unsigned [] = none
unsigned (c ∷ cs) = if is_digit c then some (leading 0 (c ∷ cs)) else none

abbrev pub negate : ℕ → ℤ
negate n = if n == 0 then pos 0 else negsuc (n - 1)

-- The number behind spaces and a sign; `none` if there is none.
unfoldable pub read_signed : Bytes → Option ℤ
unfolding unsigned
read_signed [] = none
read_signed (c ∷ cs) =
    if c == b'-'
    then elim (unsigned cs) [ none ↦ none | some n ↦ some (negate n) ]
    else (let digits = if c == b'+' then cs else c ∷ cs in
        elim (unsigned digits) [ none ↦ none | some n ↦ some (pos n) ])

-- From -2^31 to 2^31 - 1.
abbrev pub in_int : ℤ → Bool
in_int (pos n) = leb n int_max
in_int (negsuc n) = leb n int_max

-- `std::stoi`; `none` is an exception.
unfoldable pub stoi : Bytes → Option ℤ
unfolding read_signed
stoi text = elim (read_signed (skip_spaces text)) [
  | none ↦ none
  | some z ↦ if in_int z then some z else none
]

-- `std::atoi`: 0 where there is no number, undefined where it does not fit.
unfoldable pub atoi : Bytes → Result ℤ
unfolding read_signed
atoi text = elim (read_signed (skip_spaces text)) [
  | none ↦ ok (pos 0)
  | some z ↦ if in_int z then ok z else err overflow
]

abbrev pub value_of : ℕ → Bytes → ℕ
value_of n [] = n
value_of n (c ∷ cs) = value_of (n * 10 + c - b'0') cs

abbrev pub IsDecimal : Bytes → Type 0
IsDecimal ds = (ds ≢ []) × All (λ c. is_digit c ≡ true) ds × (value_of 0 ds ≤ int_max)

leading-value_of :
    (ds : Bytes) (n : ℕ) → All (λ c. is_digit c ≡ true) ds → leading n ds ≡ value_of n ds
leading-value_of [] n h = refl
leading-value_of (c ∷ ds) n (h, hs) = rw (h) (leading-value_of ds (n * 10 + c - b'0') hs)

pub atoi-decimal : (ds : Bytes) → IsDecimal ds → atoi ds ≡ ok (pos (value_of 0 ds))
unfolding atoi
atoi-decimal [] (ne, h, fits) = absurd (ne refl)
atoi-decimal (c ∷ ds) (ne, (h, hs), fits) =
    ground (arith, leading-value_of ds (0 * 10 + c - b'0') hs)

pub stoi-decimal : (ds : Bytes) → IsDecimal ds → stoi ds ≡ some (pos (value_of 0 ds))
unfolding stoi
stoi-decimal [] (ne, h, fits) = absurd (ne refl)
stoi-decimal (c ∷ ds) (ne, (h, hs), fits) =
    ground (arith, leading-value_of ds (0 * 10 + c - b'0') hs)
