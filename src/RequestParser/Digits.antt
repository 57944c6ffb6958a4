-- ===== src/RequestParser/Digits.antt =====
-- What the states that read a version number take from the input.
use aite_cs.Prelude.{
  ℕ, ◌+◌, ◌-◌, ◌*◌, ◌≤◌, true, [], ◌∷◌, ◌++◌, some, ◌≡◌, ◌≢◌, ap, arith, Bytes, ◌==◌, ltb,
  Bool-cases, inl, inr,
}
use aite_cs.RequestParser.Machine.{
  State, http_version_major_start, http_version_major, http_version_minor_start, http_version_minor,
  expecting_newline_1, ParserRequest, digit, consume, push_digit, int_max, more,
}
use aite_cs.RequestParser.Parse.{parse_from, Parsed}
use aite_cs.RequestParser.Wire.{Fits, value_after}
use aite_cs.RequestParser.Takes.{Accepts, not_accepts_nil}

-- One digit of a number and what follows, after `n`.
abbrev pub IsDigits : ℕ → (ℕ → Type 0) → ℕ → Type 0
IsDigits n Later c = (digit c ≡ true) × (n * 10 + c ≤ int_max) × Later (n * 10 + c - b'0')

-- How a state takes a byte when the number read so far is `n`.
pub data TakesDigit (s t : State) (stop : ℕ) (req_at : ℕ → ParserRequest) (n : ℕ) (c : ℕ)
    : Type 0 where
  stops : c ≡ stop → consume s (req_at n) c ≡ more t (req_at n) → TakesDigit s t stop req_at n c
  keeps :
      digit c ≡ true
      → n * 10 + c ≤ int_max
      → consume s (req_at n) c ≡ more s (req_at (n * 10 + c - b'0'))
      → TakesDigit s t stop req_at n c
  refuses :
      ((cs : Bytes) (p : Parsed) → ¬ (Accepts s (req_at n) (c ∷ cs) p))
      → TakesDigit s t stop req_at n c

pub record Number (n : ℕ) (stop : ℕ) (input : Bytes) (t : State) (next : ℕ → ParserRequest)
    (p : Parsed) : Type 0 where
  pub piece : Bytes
  pub rest : Bytes
  pub splits : input ≡ piece ++ stop ∷ rest
  pub holds : Fits n piece
  pub accepted : Accepts t (next (value_after n piece)) rest p

module _ (s t : State) (stop : ℕ) (req_at : ℕ → ParserRequest)
    (takes : (n c : ℕ) → TakesDigit s t stop req_at n c) where
  pub Accepts-digits :
      (input : Bytes) (n : ℕ) (p : Parsed)
      → Accepts s (req_at n) input p
      → Number n stop input t req_at p
  Accepts-digits [] n p a = absurd (not_accepts_nil s (req_at n) p a)
  Accepts-digits (c ∷ cs) n p (e, y) = elim (takes n c) [
    | stops same step ↦ record {
      piece = [];
      rest = cs;
      splits = ap (λ d. d ∷ cs) same;
      holds = tt;
      accepted = (unfold parse_from in rw (step, parse_from) at e, y);
    }
    | keeps good fit step ↦
        let later =
          Accepts-digits cs (n * 10 + c - b'0') p
            (unfold parse_from in rw (step, parse_from) at e, y) in
        record {
          piece = c ∷ later.piece;
          rest = later.rest;
          splits = ap (◌∷◌ c) later.splits;
          holds = (good, fit, later.holds);
          accepted = later.accepted;
        }
    | refuses no_way ↦ absurd (no_way cs p (e, y))
  ]

abbrev pub with_major : ParserRequest → ℕ → ParserRequest
with_major req n = record req { http_version_major = some n }

abbrev pub with_minor : ParserRequest → ℕ → ParserRequest
with_minor req n = record req { http_version_minor = some n }

pub takes-major :
    (req : ParserRequest) (n c : ℕ)
    → TakesDigit http_version_major http_version_minor_start b'.' (with_major req) n c
unfolding consume push_digit
takes-major req n c = elim (Bool-cases (c == b'.')) [
  | inl e ↦ stops (ground arith) (ground arith)
  | inr e ↦ elim (Bool-cases (digit c)) [
    | inl good ↦ elim (Bool-cases (ltb int_max (n * 10 + c))) [
      | inl over ↦ refuses (λ cs p a. unfold parse_from in ground (arith, a.0))
      | inr fit ↦ keeps good (ground arith) (ground arith)
    ]
    | inr bad ↦ refuses (λ cs p a. unfold parse_from in ground (arith, a.0, a.1))
  ]
]

pub takes-minor :
    (req : ParserRequest) (n c : ℕ)
    → TakesDigit http_version_minor expecting_newline_1 b'\r' (with_minor req) n c
unfolding consume push_digit
takes-minor req n c = elim (Bool-cases (c == b'\r')) [
  | inl e ↦ stops (ground arith) (ground arith)
  | inr e ↦ elim (Bool-cases (digit c)) [
    | inl good ↦ elim (Bool-cases (ltb int_max (n * 10 + c))) [
      | inl over ↦ refuses (λ cs p a. unfold parse_from in ground (arith, a.0))
      | inr fit ↦ keeps good (ground arith) (ground arith)
    ]
    | inr bad ↦ refuses (λ cs p a. unfold parse_from in ground (arith, a.0, a.1))
  ]
]

-- How the state before a number takes its first byte.
pub data Starts (s0 s : State) (req_at : ℕ → ParserRequest) (c : ℕ) : Type 0 where
  keeps :
      digit c ≡ true
      → 0 * 10 + c ≤ int_max
      → consume s0 (req_at 0) c ≡ more s (req_at (0 * 10 + c - b'0'))
      → Starts s0 s req_at c
  refuses :
      ((cs : Bytes) (p : Parsed) → ¬ (Accepts s0 (req_at 0) (c ∷ cs) p)) → Starts s0 s req_at c

module _ (s0 s t : State) (stop : ℕ) (req_at : ℕ → ParserRequest)
    (starts : (c : ℕ) → Starts s0 s req_at c)
    (takes : (n c : ℕ) → TakesDigit s t stop req_at n c) where
  pub Accepts-Number :
      (input : Bytes) (p : Parsed)
      → Accepts s0 (req_at 0) input p
      → (num : Number 0 stop input t req_at p) × (num.piece ≢ [])
  Accepts-Number [] p a = absurd (not_accepts_nil s0 (req_at 0) p a)
  Accepts-Number (c ∷ cs) p (e, y) = elim (starts c) [
    | keeps good fit step ↦
        let later =
          Accepts-digits s t stop req_at takes cs (0 * 10 + c - b'0') p
            (unfold parse_from in rw (step, parse_from) at e, y) in
        (
          record {
            piece = c ∷ later.piece;
            rest = later.rest;
            splits = ap (◌∷◌ c) later.splits;
            holds = (good, fit, later.holds);
            accepted = later.accepted;
          },
          λ nil. cc,
        )
    | refuses no_way ↦ absurd (no_way cs p (e, y))
  ]

pub Starts-major :
    (req : ParserRequest) (c : ℕ)
    → Starts http_version_major_start http_version_major (with_major req) c
unfolding consume push_digit
Starts-major req c = elim (Bool-cases (digit c)) [
  | inl good ↦ elim (Bool-cases (ltb int_max (0 * 10 + c))) [
    | inl over ↦ refuses (λ cs p a. unfold parse_from in ground (arith, a.0))
    | inr fit ↦ keeps good (ground arith) (ground arith)
  ]
  | inr bad ↦ refuses (λ cs p a. unfold parse_from in ground (arith, a.0, a.1))
]

pub Starts-minor :
    (req : ParserRequest) (c : ℕ)
    → Starts http_version_minor_start http_version_minor (with_minor req) c
unfolding consume push_digit
Starts-minor req c = elim (Bool-cases (digit c)) [
  | inl good ↦ elim (Bool-cases (ltb int_max (0 * 10 + c))) [
    | inl over ↦ refuses (λ cs p a. unfold parse_from in ground (arith, a.0))
    | inr fit ↦ keeps good (ground arith) (ground arith)
  ]
  | inr bad ↦ refuses (λ cs p a. unfold parse_from in ground (arith, a.0, a.1))
]
