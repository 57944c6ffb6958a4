-- ===== src/Standard/Decimal.antt =====
-- How `operator<<` writes an `int` that is not negative, and its first digit.
use aite_cs.Prelude.{
  ℕ, zero, suc, ◌+◌, ◌-◌, ◌*◌, ◌/◌, ◌%◌, ◌<◌, [], ◌∷◌, ◌++◌, Bytes, ltb, if◌then◌else◌, ◌≡◌, refl,
  arith, Bool-cases, inl, inr,
}
use aite_cs.Standard.Ints.{value_of}

-- One round for each digit, and the number itself is fuel enough.
unfoldable pub digits_of : ℕ → ℕ → Bytes
digits_of zero n = []
digits_of (suc fuel) n =
    let more = digits_of fuel (n / 10) in
    if ltb n 10 then (b'0' + n) ∷ [] else more ++ (b'0' + n % 10) ∷ []

unfoldable pub decimal : ℕ → Bytes
unfolding digits_of
decimal n = digits_of (suc n) n

-- `n / pow(10, (int)log10(n))`, in `int`.
unfoldable pub leading_digit : ℕ → ℕ → ℕ
leading_digit zero n = n
leading_digit (suc fuel) n =
    let later = leading_digit fuel (n / 10) in if ltb n 10 then n else later

value_of-append :
    (n : ℕ) (ds : Bytes) (d : ℕ) → value_of n (ds ++ d ∷ []) ≡ value_of n ds * 10 + d - b'0'
value_of-append n [] d = refl
value_of-append n (c ∷ ds) d = value_of-append (n * 10 + c - b'0') ds d

value_of-digits_of : (fuel n : ℕ) → n < fuel → value_of 0 (digits_of fuel n) ≡ n
unfolding digits_of
value_of-digits_of zero n h = absurd (omega arith)
value_of-digits_of (suc fuel) n h = elim (Bool-cases (ltb n 10)) [
  | inl small ↦ rw small (omega arith)
  | inr large ↦
      let rest = value_of-digits_of fuel (n / 10) (ground arith) in
      rw (large, value_of-append 0 (digits_of fuel (n / 10)) (b'0' + n % 10), rest) (omega arith)
]

-- What is written is read back.
pub value_of-decimal : (n : ℕ) → value_of 0 (decimal n) ≡ n
unfolding decimal
value_of-decimal n = value_of-digits_of (suc n) n (omega arith)
