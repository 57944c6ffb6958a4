-- ===== src/RequestParser/Takes.antt =====
-- What each state of the parser takes from the input that it accepts, as pieces that are split off.
use aite_cs.Prelude.{
  ℕ, false, List, [], ◌∷◌, ◌++◌, some, ok, ◌≡◌, ◌≢◌, ◌⊎◌, ap, arith, append_assoc, append-nil,
  Bytes, All, ◌==◌, Bool-cases, inl, inr,
}
use aite_cs.RequestParser.Machine.{
  State, method, uri, http_version_h, http_version_t_1, http_version_t_2, http_version_p,
  http_version_slash, http_version_major_start, header_name, header_value,
  space_before_header_value, expecting_newline_2, ParserRequest, not_token, ctl, consume, Header,
  is_true, more, refuse,
}
use aite_cs.RequestParser.Parse.{parse_from, Parsed}
use aite_cs.RequestParser.Pieces.{with_last, push_value-last, push_name-last}

-- The parser accepts a prefix of the input, with the outcome `p`.
abbrev pub Accepts : State → ParserRequest → Bytes → Parsed → Type 0
Accepts s req input p = (parse_from s req input ≡ ok p) × (p.result ≡ is_true)

pub not_accepts_nil : (s : State) (req : ParserRequest) (p : Parsed) → ¬ (Accepts s req [] p)
unfolding parse_from
not_accepts_nil s req p (e, y) = cc

-- The input is a piece that satisfies `P`, one byte, and a rest that is accepted from `s`.
pub record Piece (P : Bytes → Type 0) (stop : ℕ) (input : Bytes) (s : State)
    (next : Bytes → ParserRequest) (p : Parsed) : Type 0 where
  pub piece : Bytes
  pub rest : Bytes
  pub splits : input ≡ piece ++ stop ∷ rest
  pub holds : P piece
  pub accepted : Accepts s (next piece) rest p

-- How state `s` takes one byte after it has read `acc`: it goes on to `t`, keeps the byte, or refuses.
pub data Takes (s t : State) (stop : ℕ) (In : ℕ → Type 0) (req_at : Bytes → ParserRequest)
    (acc : Bytes) (c : ℕ) : Type 0 where
  stops : c ≡ stop → consume s (req_at acc) c ≡ more t (req_at acc) → Takes s t stop In req_at acc c
  keeps :
      In c
      → consume s (req_at acc) c ≡ more s (req_at (acc ++ c ∷ []))
      → Takes s t stop In req_at acc c
  refuses : consume s (req_at acc) c ≡ refuse s (req_at acc) → Takes s t stop In req_at acc c

module _ (s t : State) (stop : ℕ) (In : ℕ → Type 0) (req_at : Bytes → ParserRequest)
    (takes : (acc : Bytes) (c : ℕ) → Takes s t stop In req_at acc c) where
  pub Accepts-Piece :
      (input acc : Bytes) (p : Parsed)
      → Accepts s (req_at acc) input p
      → Piece (All In) stop input t (λ x. req_at (acc ++ x)) p
  Accepts-Piece [] acc p a = absurd (not_accepts_nil s (req_at acc) p a)
  Accepts-Piece (c ∷ cs) acc p (e, y) = elim (takes acc c) [
    | stops same step ↦ record {
      piece = [];
      rest = cs;
      splits = ap (λ d. d ∷ cs) same;
      holds = tt;
      accepted = rw append-nil (unfold parse_from in rw (step, parse_from) at e, y);
    }
    | keeps good step ↦
        let later =
          Accepts-Piece cs (acc ++ c ∷ []) p (unfold parse_from in rw (step, parse_from) at e, y) in
        record {
          piece = c ∷ later.piece;
          rest = later.rest;
          splits = ap (◌∷◌ c) later.splits;
          holds = (good, later.holds);
          accepted = rw append_assoc at later.accepted;
        }
    | refuses step ↦ absurd (unfold parse_from in ground arith)
  ]

pub Takes-method :
    (req : ParserRequest) (acc : Bytes) (c : ℕ)
    → Takes method uri b' '
        (λ d. not_token d ≡ false)
        (λ t. record req { method = req.method ++ t })
        acc
        c
unfolding consume
Takes-method req acc c = elim (Bool-cases (c == b' ')) [
  | inl e ↦ stops (ground arith) (ground arith)
  | inr e ↦ elim (Bool-cases (not_token c)) [
    | inl bad ↦ refuses (ground arith)
    | inr good ↦ keeps good (ground (arith, append_assoc req.method acc (c ∷ [])))
  ]
]

pub Takes-uri :
    (req : ParserRequest) (acc : Bytes) (c : ℕ)
    → Takes uri http_version_h b' '
        (λ d. (d ≢ b' ') × (ctl d ≡ false))
        (λ t. record req { uri = req.uri ++ t })
        acc
        c
unfolding consume
Takes-uri req acc c = elim (Bool-cases (c == b' ')) [
  | inl e ↦ stops (ground arith) (ground arith)
  | inr e ↦ elim (Bool-cases (ctl c)) [
    | inl bad ↦ refuses (ground arith)
    | inr good ↦ keeps (ground arith, good) (ground (arith, append_assoc req.uri acc (c ∷ [])))
  ]
]

-- The last header's name is what has been read of it.
abbrev pub named : ParserRequest → Bytes → ParserRequest
named req t = with_last req req.headers (record { name = t; value = [] })

abbrev pub valued : ParserRequest → List Header → Header → Bytes → ParserRequest
valued req hs h t = with_last req hs (record h { value = h.value ++ t })

pub Takes-name :
    (req : ParserRequest) (acc : Bytes) (c : ℕ)
    → Takes header_name space_before_header_value b':' (λ d. not_token d ≡ false) (named req) acc c
unfolding consume
Takes-name req acc c = elim (Bool-cases (c == b':')) [
  | inl e ↦ stops (ground arith) (ground arith)
  | inr e ↦ elim (Bool-cases (not_token c)) [
    | inl bad ↦ refuses (ground arith)
    | inr good ↦
        keeps good
          (ground (arith, push_name-last req.headers (record { name = acc; value = [] }) c))
  ]
]

pub Takes-value :
    (req : ParserRequest) (hs : List Header) (h : Header) (acc : Bytes) (c : ℕ)
    → Takes header_value expecting_newline_2 b'\r' (λ d. ctl d ≡ false) (valued req hs h) acc c
unfolding consume
Takes-value req hs h acc c = elim (Bool-cases (c == b'\r')) [
  | inl e ↦ stops (ground arith) (ground arith)
  | inr e ↦ elim (Bool-cases (ctl c)) [
    | inl bad ↦ refuses (ground arith)
    | inr good ↦ keeps good (
        ground (
          arith,
          push_value-last hs (record h { value = h.value ++ acc }) c,
          append_assoc h.value acc (c ∷ []),
        ))
  ]
]

-- The states that wait for one byte.
pub record Expects (input : Bytes) (wanted : ℕ) (t : State) (next : ParserRequest) (p : Parsed)
    : Type 0 where
  pub rest : Bytes
  pub splits : input ≡ wanted ∷ rest
  pub accepted : Accepts t next rest p

module _ (s t : State) (wanted : ℕ) (req next : ParserRequest)
    (takes : (c : ℕ)
      → (c ≡ wanted × (consume s req c ≡ more t next)) ⊎ (consume s req c ≡ refuse s req)) where
  pub Accepts-expect :
      (input : Bytes) (p : Parsed) → Accepts s req input p → Expects input wanted t next p
  Accepts-expect [] p a = absurd (not_accepts_nil s req p a)
  Accepts-expect (c ∷ cs) p (e, y) = elim (takes c) [
    | inl (same, step) ↦ record {
      rest = cs;
      splits = ap (λ d. d ∷ cs) same;
      accepted = (unfold parse_from in rw (step, parse_from) at e, y);
    }
    | inr step ↦ absurd (unfold parse_from in ground arith)
  ]

pub Accepts-http :
    (input : Bytes) (req : ParserRequest) (p : Parsed)
    → Accepts http_version_h req input p
    → (rest : Bytes) × (input ≡ b'H' ∷ b'T' ∷ b'T' ∷ b'P' ∷ b'/' ∷ rest)
      × Accepts http_version_major_start
          (record req { http_version_major = some 0; http_version_minor = some 0 })
          rest
          p
unfolding consume
Accepts-http input req p a =
    let versioned = record req { http_version_major = some 0; http_version_minor = some 0 } in
    let h =
      Accepts-expect http_version_h http_version_t_1 b'H' req req (λ c. ground arith) input p a in
    let t1 =
      Accepts-expect http_version_t_1 http_version_t_2 b'T' req req (λ c. ground arith) h.rest p
        h.accepted in
    let t2 =
      Accepts-expect http_version_t_2 http_version_p b'T' req req (λ c. ground arith) t1.rest p
        t1.accepted in
    let pp =
      Accepts-expect http_version_p http_version_slash b'P' req req (λ c. ground arith) t2.rest p
        t2.accepted in
    let slash =
      Accepts-expect http_version_slash http_version_major_start b'/' req versioned
        (λ c. ground arith) pp.rest p pp.accepted in
    (
      slash.rest,
      ground (arith, h.splits, t1.splits, t2.splits, pp.splits, slash.splits),
      slash.accepted,
    )
