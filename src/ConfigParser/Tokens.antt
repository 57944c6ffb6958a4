-- ===== src/ConfigParser/Tokens.antt =====
-- What `ParseToken` reads at the start of a word, a quoted string or a mark.
use aite_cs.Prelude.{
  ◌⊎◌, ℕ, true, false, [], ◌∷◌, ◌++◌, Bytes, All, ◌≡◌, ◌≢◌, refl, ◌∙◌, arith, ◌==◌, ==_iff,
  append-nil, append_assoc, Bool-cases, inl, inr,
}
use aite_cs.ConfigParser.Token.{
  in_comment, comment, normal, start_block, end_block, statement_end, eof, quoted_string,
  initial_whitespace, in_normal, double_quote, IStream, emit, go, skip, round, scan, at_end,
  parse_token, ended, ends_normal, is_space,
}
use aite_cs.ConfigParser.Source.{escape_quotes, IsInner, IsFirst, IsPlain}
use aite_cs.ConfigParser.Progress.{scan-emit, scan-go, scan-skip, scan-skipped}

abbrev pub good_stream : Bytes → IStream
good_stream rest = record { rest = rest; good = true }

-- A byte that a plain word can stand in front of.
abbrev pub IsEnd : ℕ → Type 0
IsEnd c = ends_normal c ≡ true

round_end :
    (value : Bytes) (d : ℕ) (ds : Bytes)
    → IsEnd d
    → round in_normal value d ds ≡ emit normal value true
unfolding round
round_end value d ds e = ground arith

round_inner :
    (value : Bytes) (c : ℕ) (cs : Bytes)
    → IsInner c
    → round in_normal value c cs ≡ go in_normal (value ++ c ∷ [])
unfolding round
round_inner value c cs h = ground arith

pub round_first :
    (c : ℕ) (cs : Bytes) → IsFirst c → round initial_whitespace [] c cs ≡ go in_normal (c ∷ [])
unfolding round
round_first c cs h = ground arith

round_space :
    (c : ℕ) (cs : Bytes)
    → is_space c ≡ true
    → round initial_whitespace [] c cs ≡ go initial_whitespace []
unfolding round
round_space c cs h = ground arith

round_open : (cs : Bytes) → round initial_whitespace [] b'"' cs ≡ go double_quote (b'"' ∷ [])
unfolding round
round_open cs = refl

round_close :
    (value cs : Bytes)
    → round double_quote value b'"' cs ≡ emit quoted_string (value ++ b'"' ∷ []) false
unfolding round
round_close value cs = refl

round_escape :
    (value cs : Bytes)
    → round double_quote value b'\\' (b'"' ∷ cs) ≡ skip double_quote (value ++ b'"' ∷ [])
unfolding round
round_escape value cs = refl

round_body :
    (value : Bytes) (c : ℕ) (cs : Bytes)
    → c ≢ b'\\'
    → c == b'"' ≡ false
    → round double_quote value c cs ≡ go double_quote (value ++ c ∷ [])
unfolding round
round_body value c cs h k = ground arith

scan-inner :
    (w value : Bytes) (d : ℕ) (ds : Bytes)
    → All IsInner w
    → IsEnd d
    → scan in_normal value false (w ++ d ∷ ds)
      ≡ record { token_type = normal; value = value ++ w; input = good_stream (d ∷ ds) }
scan-inner [] value d ds _ e =
    rw append-nil (scan-emit in_normal value d ds (round_end value d ds e))
scan-inner (c ∷ w) value d ds (h, hs) e =
    scan-go in_normal value c (w ++ d ∷ ds) (round_inner value c _ h)
    ∙ scan-inner w (value ++ c ∷ []) d ds hs e
    ∙ rw append_assoc

pub parse_token-plain :
    (w : Bytes) (d : ℕ) (ds : Bytes)
    → IsPlain w
    → IsEnd d
    → parse_token (good_stream (w ++ d ∷ ds))
      ≡ record { token_type = normal; value = w; input = good_stream (d ∷ ds) }
unfolding parse_token
parse_token-plain [] d ds h e = absurd h
parse_token-plain (c ∷ w) d ds (h, hs) e =
    scan-go initial_whitespace [] c (w ++ d ∷ ds) (round_first c _ h)
    ∙ scan-inner w (c ∷ []) d ds hs e

scan-quoted :
    (body value rest : Bytes)
    → All (λ c. c ≢ b'\\') body
    → scan double_quote value false (escape_quotes body ++ (b'"' ∷ rest)) ≡ record {
      token_type = quoted_string;
      value = value ++ (body ++ b'"' ∷ []);
      input = good_stream rest;
    }
scan-quoted [] value rest _ = scan-emit double_quote value b'"' rest (round_close value rest)
scan-quoted (c ∷ body) value rest (h, hs) = elim (Bool-cases (c == b'"')) [
  | inl same ↦
      let later = scan-quoted body (value ++ b'"' ∷ []) rest hs in
      rw (same, (==_iff c b'"').0 same)
        (scan-skip double_quote value b'\\' _ (round_escape value _)
          ∙ scan-skipped double_quote (value ++ b'"' ∷ []) b'"' _
          ∙ later
          ∙ rw append_assoc)
  | inr other ↦ rw other (
      scan-go double_quote value c _ (round_body value c _ h other)
      ∙ scan-quoted body (value ++ c ∷ []) rest hs
      ∙ rw append_assoc)
]

pub parse_token-quoted :
    (body rest : Bytes)
    → All (λ c. c ≢ b'\\') body
    → parse_token (good_stream (b'"' ∷ (escape_quotes body ++ (b'"' ∷ rest)))) ≡ record {
      token_type = quoted_string;
      value = b'"' ∷ (body ++ b'"' ∷ []);
      input = good_stream rest;
    }
unfolding parse_token
parse_token-quoted body rest h =
    scan-go initial_whitespace [] b'"' _ (round_open _) ∙ scan-quoted body (b'"' ∷ []) rest h

-- A blank in front of a token is skipped.
pub parse_token-blank :
    (c : ℕ) (cs : Bytes)
    → is_space c ≡ true
    → parse_token (good_stream (c ∷ cs)) ≡ parse_token (good_stream cs)
unfolding parse_token
parse_token-blank c cs h = scan-go initial_whitespace [] c cs (round_space c cs h)

round_remark : (cs : Bytes) → round initial_whitespace [] b'#' cs ≡ go in_comment (b'#' ∷ [])
unfolding round
round_remark cs = refl

scan-remark :
    (body value rest : Bytes) (stop : ℕ)
    → All (λ c. (c ≢ b'\n') × (c ≢ b'\r')) body
    → (stop ≡ b'\n') ⊎ (stop ≡ b'\r')
    → scan in_comment value false (body ++ stop ∷ rest)
      ≡ record { token_type = comment; value = value ++ body; input = good_stream rest }
scan-remark [] value rest stop _ ends =
    let stops : round in_comment value stop rest ≡ emit comment value false =
      unfold round in ground arith in
    rw append-nil (scan-emit in_comment value stop rest stops)
scan-remark (c ∷ body) value rest stop (h, hs) ends =
    let goes : round in_comment value c (body ++ stop ∷ rest) ≡ go in_comment (value ++ c ∷ []) =
      unfold round in ground arith in
    scan-go in_comment value c (body ++ stop ∷ rest) goes
    ∙ scan-remark body (value ++ c ∷ []) rest stop hs ends
    ∙ rw append_assoc

pub parse_token-remark :
    (body rest : Bytes) (stop : ℕ)
    → All (λ c. (c ≢ b'\n') × (c ≢ b'\r')) body
    → (stop ≡ b'\n') ⊎ (stop ≡ b'\r')
    → parse_token (good_stream (b'#' ∷ (body ++ stop ∷ rest)))
      ≡ record { token_type = comment; value = b'#' ∷ body; input = good_stream rest }
unfolding parse_token
parse_token-remark body rest stop h ends =
    scan-go initial_whitespace [] b'#' _ (round_remark _)
    ∙ scan-remark body (b'#' ∷ []) rest stop h ends

pub parse_token-marks :
    (cs : Bytes)
    → (parse_token (good_stream (b';' ∷ cs))
        ≡ record { token_type = statement_end; value = b';' ∷ []; input = good_stream cs })
      × (parse_token (good_stream (b'{' ∷ cs))
          ≡ record { token_type = start_block; value = b'{' ∷ []; input = good_stream cs })
      × (parse_token (good_stream (b'}' ∷ cs))
          ≡ record { token_type = end_block; value = b'}' ∷ []; input = good_stream cs })
unfolding parse_token round
parse_token-marks cs = (refl, refl, refl)

pub parse_token-eof :
    parse_token (good_stream []) ≡ record { token_type = eof; value = []; input = ended }
unfolding parse_token at_end
parse_token-eof = refl
