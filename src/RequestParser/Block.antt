-- ===== src/RequestParser/Block.antt =====
-- An accepted header block is a list of headers in their written form, and a blank line.
use aite_cs.Prelude.{
  ℕ, zero, suc, ◌<◌, List, [], ◌∷◌, ◌++◌, ◌||◌, map, ◌≡◌, ap, ◌∙◌, arith, append_assoc, append-nil,
  Bytes, All, ◌==◌, Bool-cases, inl, inr, length, length-append,
}
use aite_cs.RequestParser.Machine.{
  header_line_start, header_lws, expecting_newline_2, expecting_newline_3, ParserRequest, not_token,
  consume, Header, blank,
}
use aite_cs.RequestParser.Parse.{parse_from, Parsed}
use aite_cs.RequestParser.Pieces.{with_last, is_empty-last}
use aite_cs.RequestParser.Takes.{Accepts, not_accepts_nil, Accepts-expect, valued}
use aite_cs.RequestParser.Lines.{Accepts-lws, final, Accepts-end, HeaderLine, Accepts-named}
use aite_cs.RequestParser.Wire.{
  Fold, WireHeader, IsHeader, IsFold, IsBlank, render_folds, fold_value, header_meaning,
  render_headers,
}

-- What is accepted at the start of a line: the headers that are left, and the blank line.
pub record Block (input : Bytes) (req : ParserRequest) (p : Parsed) : Type 0 where
  pub later : List WireHeader
  pub rest : Bytes
  pub splits : input ≡ render_headers later rest
  pub later_wf : All IsHeader later
  pub outcome : p ≡ final (record req { headers = req.headers ++ map header_meaning later }) rest

-- The same behind a header, which may go on in continuation lines.
pub record Lines (input : Bytes) (req : ParserRequest) (hs : List Header) (h : Header) (p : Parsed)
    : Type 0 where
  folds : List Fold
  pub later : List WireHeader
  pub rest : Bytes
  pub splits : input ≡ render_folds folds (render_headers later rest)
  folds_wf : All IsFold folds
  pub later_wf : All IsHeader later
  pub outcome :
      p
      ≡ final
          (record req {
            headers =
                hs ++ (record h { value = h.value ++ fold_value folds } ∷ map header_meaning later);
          })
          rest

Lines-of_Block :
    {input : Bytes} {req : ParserRequest} {hs : List Header} {h : Header} {p : Parsed}
    → Block input (with_last req hs h) p
    → Lines input req hs h p
Lines-of_Block {input} {req} {hs} {h} b = record {
  folds = [];
  later = b.later;
  rest = b.rest;
  splits = b.splits;
  folds_wf = tt;
  later_wf = b.later_wf;
  outcome = b.outcome ∙ rw (append_assoc, append-nil);
}

Block-cons :
    {input : Bytes} {req : ParserRequest} {p : Parsed} (l : HeaderLine input req p)
    → Lines l.rest req req.headers (record { name = l.name; value = l.first }) p
    → Block input req p
Block-cons l rest = record {
  later = record { name = l.name; first = l.first; folds = rest.folds } ∷ rest.later;
  rest = rest.rest;
  splits = l.splits ∙ rw rest.splits;
  later_wf = (
    record {
      nonempty = l.nonempty;
      name_token = l.name_token;
      first_plain = l.first_plain;
      folds_wf = rest.folds_wf;
    },
    rest.later_wf,
  );
  outcome = rest.outcome;
}

Block-end :
    (c : ℕ) (cs : Bytes) (req : ParserRequest) (p : Parsed)
    → c ≡ b'\r'
    → Accepts expecting_newline_3 req cs p
    → Block (c ∷ cs) req p
Block-end c cs req p same a =
    let (rest, splits, outcome) = Accepts-end cs req p a in
    record {
      later = [];
      rest = rest;
      splits = rw (same, splits);
      later_wf = tt;
      outcome = outcome ∙ rw append-nil;
    }

length-line :
    (name first rest : Bytes)
    → length rest < length (name ++ (b':' ∷ b' ' ∷ (first ++ b'\r' ∷ b'\n' ∷ rest)))
length-line name first rest = omega (
  arith,
  length-append name (b':' ∷ b' ' ∷ (first ++ b'\r' ∷ b'\n' ∷ rest)),
  length-append first (b'\r' ∷ b'\n' ∷ rest),
)

length-fold :
    (blanks text rest : Bytes) → length rest < length (blanks ++ (text ++ b'\r' ∷ b'\n' ∷ rest))
length-fold blanks text rest = omega (
  arith,
  length-append blanks (text ++ b'\r' ∷ b'\n' ∷ rest),
  length-append text (b'\r' ∷ b'\n' ∷ rest),
)

-- A continuation line that has been read, with its first blank in front.
pub record FoldLine (input : Bytes) (req : ParserRequest) (hs : List Header) (h : Header)
    (p : Parsed) : Type 0 where
  fold : Fold
  pub rest : Bytes
  pub splits : input ≡ fold.blanks ++ (fold.text ++ b'\r' ∷ b'\n' ∷ rest)
  fold_wf : IsFold fold
  accepted : Accepts header_line_start (valued req hs h fold.text) rest p

Accepts-fold :
    (c : ℕ) (cs : Bytes) (req : ParserRequest) (hs : List Header) (h : Header) (p : Parsed)
    → IsBlank c
    → Accepts header_lws (with_last req hs h) cs p
    → FoldLine (c ∷ cs) req hs h p
unfolding consume
Accepts-fold c cs req hs h p blank a =
    let f = Accepts-lws cs req hs h p a in
    let done = valued req hs h f.text in
    let nl =
      Accepts-expect expecting_newline_2 header_line_start b'\n' done done (λ d. ground arith)
        f.rest p f.accepted in
    record {
      fold = record { blanks = c ∷ f.blanks; text = f.text };
      rest = nl.rest;
      splits = ap (◌∷◌ c) (f.splits ∙ ap (λ r. f.blanks ++ (f.text ++ b'\r' ∷ r)) nl.splits);
      fold_wf = record {
        nonempty = λ e. cc;
        blanks_blank = (blank, f.blanks_blank);
        text_plain = f.text_plain;
        text_start = f.text_start;
      };
      accepted = nl.accepted;
    }

Lines-fold :
    {input : Bytes} {req : ParserRequest} {hs : List Header} {h : Header} {p : Parsed}
    (f : FoldLine input req hs h p)
    → Lines f.rest req hs (record h { value = h.value ++ f.fold.text }) p
    → Lines input req hs h p
Lines-fold f l = record {
  folds = f.fold ∷ l.folds;
  later = l.later;
  rest = l.rest;
  splits = f.splits ∙ ap (λ r. f.fold.blanks ++ (f.fold.text ++ b'\r' ∷ b'\n' ∷ r)) l.splits;
  folds_wf = (f.fold_wf, l.folds_wf);
  later_wf = l.later_wf;
  outcome = rw append_assoc at l.outcome;
}

Accepts-Lines :
    (n : ℕ) (input : Bytes) (req : ParserRequest) (hs : List Header) (h : Header) (p : Parsed)
    → length input < n
    → Accepts header_line_start (with_last req hs h) input p
    → Lines input req hs h p
Accepts-Lines zero input req hs h p lt a = absurd (omega arith)
Accepts-Lines (suc n) [] req hs h p lt a =
    absurd (not_accepts_nil header_line_start (with_last req hs h) p a)
Accepts-Lines (suc n) (c ∷ cs) req hs h p lt (e, y) = elim (Bool-cases (c == b'\r')) [
  | inl same ↦ Lines-of_Block (
      Block-end c cs (with_last req hs h) p (ground arith)
        (unfold parse_from consume in ground arith, y))
  | inr other ↦ elim (Bool-cases (c == b' ' || c == b'\t')) [
    | inl space ↦
        let f =
          Accepts-fold c cs req hs h p (ground arith)
            (unfold parse_from consume in ground (arith, is_empty-last hs h), y) in
        Lines-fold f (
          Accepts-Lines n f.rest req hs (record h { value = h.value ++ f.fold.text }) p
            (omega (arith, ap length f.splits, length-fold f.fold.blanks f.fold.text f.rest))
            f.accepted)
    | inr dark ↦ elim (Bool-cases (not_token c)) [
      | inl bad ↦ absurd (unfold parse_from consume in ground arith)
      | inr good ↦
          let all = with_last req hs h in
          let l = Accepts-named c cs all p good (unfold parse_from consume in ground arith, y) in
          Lines-of_Block (
            Block-cons l (
              Accepts-Lines n l.rest all all.headers (record { name = l.name; value = l.first }) p
                (omega (arith, ap length l.splits, length-line l.name l.first l.rest)) l.accepted))
    ]
  ]
]

pub Accepts-Block :
    (input : Bytes) (req : ParserRequest) (p : Parsed)
    → req.headers ≡ []
    → Accepts header_line_start req input p
    → Block input req p
Accepts-Block [] req p none a = absurd (not_accepts_nil header_line_start req p a)
Accepts-Block (c ∷ cs) req p none (e, y) = elim (Bool-cases (c == b'\r')) [
  | inl same ↦ Block-end c cs req p (ground arith) (unfold parse_from consume in ground arith, y)
  | inr other ↦ elim (Bool-cases (not_token c)) [
    | inl bad ↦ absurd (unfold parse_from consume in ground arith)
    | inr good ↦
        let l = Accepts-named c cs req p good (unfold parse_from consume in ground arith, y) in
        Block-cons l (
          Accepts-Lines (length (c ∷ cs)) l.rest req req.headers
            (record { name = l.name; value = l.first }) p
            (omega (arith, ap length l.splits, length-line l.name l.first l.rest)) l.accepted)
  ]
]
