-- ===== src/RequestParser/Lines.antt =====
-- The single lines of an accepted header block: the first line of a header, a continuation line, the
-- blank line.
use aite_cs.Prelude.{
  ℕ, false, List, [], ◌∷◌, ◌++◌, ◌||◌, ◌≡◌, ◌≢◌, ap, arith, append_assoc, append-nil, Bytes, All,
  ◌==◌, Bool-cases, inl, inr,
}
use aite_cs.RequestParser.Machine.{
  header_line_start, header_name, header_lws, header_value, space_before_header_value,
  expecting_newline_2, expecting_newline_3, ParserRequest, not_token, ctl, consume, Header, is_true,
}
use aite_cs.RequestParser.Parse.{parse_from, Parsed}
use aite_cs.RequestParser.Pieces.{with_last, push_value-last}
use aite_cs.RequestParser.Takes.{
  Accepts, not_accepts_nil, Accepts-Piece, Accepts-expect, Takes-name, Takes-value, named, valued,
}
use aite_cs.RequestParser.Wire.{IsToken, IsValue, NoLeadingSpace, IsBlank}

-- A continuation line behind its first blank, up to the line's end.
pub record FoldText (input : Bytes) (next : Bytes → ParserRequest) (p : Parsed) : Type 0 where
  pub blanks : Bytes
  pub text : Bytes
  pub rest : Bytes
  pub splits : input ≡ blanks ++ (text ++ b'\r' ∷ rest)
  pub blanks_blank : All IsBlank blanks
  pub text_plain : IsValue text
  pub text_start : NoLeadingSpace text
  pub accepted : Accepts expecting_newline_2 (next text) rest p

pub Accepts-lws :
    (input : Bytes) (req : ParserRequest) (hs : List Header) (h : Header) (p : Parsed)
    → Accepts header_lws (with_last req hs h) input p
    → FoldText input (valued req hs h) p
unfolding parse_from consume
Accepts-lws [] req hs h p a = absurd (not_accepts_nil header_lws (with_last req hs h) p a)
Accepts-lws (c ∷ cs) req hs h p (e, y) = elim (Bool-cases (c == b'\r')) [
  | inl same ↦ record {
    blanks = [];
    text = [];
    rest = cs;
    splits = ground arith;
    blanks_blank = tt;
    text_plain = tt;
    text_start = tt;
    accepted = rw append-nil (ground arith, y);
  }
  | inr other ↦ elim (Bool-cases (c == b' ' || c == b'\t')) [
    | inl space ↦
        let later = Accepts-lws cs req hs h p (ground arith, y) in
        record {
          blanks = c ∷ later.blanks;
          text = later.text;
          rest = later.rest;
          splits = ap (◌∷◌ c) later.splits;
          blanks_blank = (ground arith, later.blanks_blank);
          text_plain = later.text_plain;
          text_start = later.text_start;
          accepted = later.accepted;
        }
    | inr dark ↦ elim (Bool-cases (ctl c)) [
      | inl bad ↦ absurd (ground arith)
      | inr good ↦
          let next = record h { value = h.value ++ c ∷ [] } in
          let later =
            Accepts-Piece header_value expecting_newline_2 b'\r' (λ d. ctl d ≡ false)
              (valued req hs next) (Takes-value req hs next) cs [] p
              (rw append-nil (ground (arith, push_value-last hs h c)), y) in
          record {
            blanks = [];
            text = c ∷ later.piece;
            rest = later.rest;
            splits = ap (◌∷◌ c) later.splits;
            blanks_blank = tt;
            text_plain = (good, later.holds);
            text_start = ground arith;
            accepted = rw append_assoc at later.accepted;
          }
    ]
  ]
]

-- The outcome of an accepted input.
abbrev pub final : ParserRequest → Bytes → Parsed
final req rest = record { result = is_true; state_ = expecting_newline_3; req = req; rest = rest }

pub Accepts-end :
    (input : Bytes) (req : ParserRequest) (p : Parsed)
    → Accepts expecting_newline_3 req input p
    → (rest : Bytes) × (input ≡ b'\n' ∷ rest) × (p ≡ final req rest)
unfolding parse_from consume
Accepts-end [] req p a = absurd (not_accepts_nil expecting_newline_3 req p a)
Accepts-end (c ∷ cs) req p (e, y) = elim (Bool-cases (c == b'\n')) [
  | inl same ↦ (cs, ground arith, ground arith)
  | inr other ↦ absurd (ground arith)
]

-- The first line of a header.
pub record HeaderLine (input : Bytes) (req : ParserRequest) (p : Parsed) : Type 0 where
  pub name : Bytes
  pub first : Bytes
  pub rest : Bytes
  pub splits : input ≡ name ++ (b':' ∷ b' ' ∷ (first ++ b'\r' ∷ b'\n' ∷ rest))
  pub nonempty : name ≢ []
  pub name_token : IsToken name
  pub first_plain : IsValue first
  pub accepted :
      Accepts header_line_start
        (with_last req req.headers (record { name = name; value = first }))
        rest
        p

join_line :
    (c : ℕ) (cs name first r1 r2 r3 rest : Bytes)
    → cs ≡ name ++ b':' ∷ r1
    → r1 ≡ b' ' ∷ r2
    → r2 ≡ first ++ b'\r' ∷ r3
    → r3 ≡ b'\n' ∷ rest
    → c ∷ cs ≡ c ∷ (name ++ (b':' ∷ b' ' ∷ (first ++ b'\r' ∷ b'\n' ∷ rest)))
join_line c cs name first r1 r2 r3 rest e1 e2 e3 e4 = rw (e1, e2, e3, e4)

pub Accepts-named :
    (c : ℕ) (cs : Bytes) (req : ParserRequest) (p : Parsed)
    → not_token c ≡ false
    → Accepts header_name (named req (c ∷ [])) cs p
    → HeaderLine (c ∷ cs) req p
unfolding consume
Accepts-named c cs req p good a =
    let n =
      Accepts-Piece header_name space_before_header_value b':' (λ d. not_token d ≡ false)
        (named req) (Takes-name req) cs (c ∷ []) p a in
    let h : Header = record { name = c ∷ n.piece; value = [] } in
    let all = named req (c ∷ n.piece) in
    let sp =
      Accepts-expect space_before_header_value header_value b' ' all all (λ d. ground arith) n.rest
        p n.accepted in
    let v =
      Accepts-Piece header_value expecting_newline_2 b'\r' (λ d. ctl d ≡ false)
        (valued req req.headers h) (Takes-value req req.headers h) sp.rest [] p sp.accepted in
    let done = valued req req.headers h v.piece in
    let nl =
      Accepts-expect expecting_newline_2 header_line_start b'\n' done done (λ d. ground arith)
        v.rest p v.accepted in
    record {
      name = c ∷ n.piece;
      first = v.piece;
      rest = nl.rest;
      splits =
          join_line c cs n.piece v.piece n.rest sp.rest v.rest nl.rest n.splits sp.splits v.splits
            nl.splits;
      nonempty = λ e. cc;
      name_token = (good, n.holds);
      first_plain = v.holds;
      accepted = nl.accepted;
    }
