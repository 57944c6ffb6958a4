-- ===== src/ConfigParser/Progress.antt =====
-- Each token takes at least one byte off the stream, so the loop of `Parse` ends.
use aite_cs.Prelude.{
  ℕ, zero, suc, ◌+◌, ◌≤◌, ◌<◌, Bool, true, false, [], ◌∷◌, Bytes, length, Result, ok, err, ◌≡◌, ◌≢◌,
  ◌⊎◌, Fault, inl, inr, refl, arith, Bool-cases, if◌then◌else◌,
}
use aite_cs.ConfigParser.Config.{NginxConfig}
use aite_cs.ConfigParser.Token.{
  TokenType, normal, eof, quoted_string, TokenParserState, initial_whitespace, IStream, Round, emit,
  go, skip, cut, round, scan, at_end, parse_token, token_at_end, unget,
}
use aite_cs.ConfigParser.Loop.{
  ParseState, Turn, again, return_true, return_false, on_token, turn, out_of_fuel, parse_loop,
  returns, initial, parse,
}

-- How often the stream can still be read.
abbrev pub measure : IStream → ℕ
measure i = length i.rest + (if i.good then 1 else 0)

-- A round of the loop of `ParseToken`, by what it does.
pub scan-emit :
    (state : TokenParserState) (value : Bytes) (c : ℕ) (cs : Bytes) {t : TokenType} {v : Bytes}
    {back : Bool}
    → round state value c cs ≡ emit t v back
    → scan state value false (c ∷ cs)
      ≡ record { token_type = t; value = v; input = unget back c cs }
unfolding scan
scan-emit state value c cs e = rw (e, scan)

pub scan-go :
    (state : TokenParserState) (value : Bytes) (c : ℕ) (cs : Bytes) {next : TokenParserState}
    {v : Bytes}
    → round state value c cs ≡ go next v
    → scan state value false (c ∷ cs) ≡ scan next v false cs
unfolding scan
scan-go state value c cs e = rw (e, scan)

pub scan-skip :
    (state : TokenParserState) (value : Bytes) (c : ℕ) (cs : Bytes) {next : TokenParserState}
    {v : Bytes}
    → round state value c cs ≡ skip next v
    → scan state value false (c ∷ cs) ≡ scan next v true cs
unfolding scan
scan-skip state value c cs e = rw (e, scan)

pub scan-cut :
    (state : TokenParserState) (value : Bytes) (c : ℕ) (cs : Bytes) {v : Bytes}
    → round state value c cs ≡ cut v
    → scan state value false (c ∷ cs) ≡ token_at_end state v
unfolding scan
scan-cut state value c cs e = rw (e, scan)

pub scan-skipped :
    (state : TokenParserState) (value : Bytes) (c : ℕ) (cs : Bytes)
    → scan state value true (c ∷ cs) ≡ scan state value false cs
unfolding scan
scan-skipped state value c cs = refl

data IsRound (r : Round) : Type 0 where
  emits : {t : TokenType} {v : Bytes} {back : Bool} → r ≡ emit t v back → IsRound r
  goes : {next : TokenParserState} {v : Bytes} → r ≡ go next v → IsRound r
  skips : {next : TokenParserState} {v : Bytes} → r ≡ skip next v → IsRound r
  cuts : {v : Bytes} → r ≡ cut v → IsRound r

Round-cases : (r : Round) → IsRound r
Round-cases (emit t v back) = emits refl
Round-cases (go next v) = goes refl
Round-cases (skip next v) = skips refl
Round-cases (cut v) = cuts refl

scan-measure :
    (state : TokenParserState) (value : Bytes) (skipped : Bool) (cs : Bytes)
    → measure (scan state value skipped cs).input ≤ length cs + 1
scan-measure state value skipped [] = unfold scan in omega arith
scan-measure state value true (c ∷ cs) =
    rw scan-skipped (omega (arith, scan-measure state value false cs))
scan-measure state value false (c ∷ cs) = elim (Round-cases (round state value c cs)) [
  | emits {t} {v} {back} e ↦ rw (scan-emit state value c cs e) (ground arith)
  | goes {next} {v} e ↦
      rw (scan-go state value c cs e) (omega (arith, scan-measure next v false cs))
  | skips {next} {v} e ↦
      rw (scan-skip state value c cs e) (omega (arith, scan-measure next v true cs))
  | cuts e ↦ rw (scan-cut state value c cs e) (omega arith)
]

-- In the first state a byte is never put back.
round-initial :
    (value : Bytes) (c : ℕ) (cs : Bytes) {t : TokenType} {v : Bytes} {back : Bool}
    → round initial_whitespace value c cs ≡ emit t v back
    → back ≡ false
unfolding round
round-initial value c cs e = ground arith

scan_initial-measure :
    (value : Bytes) (cs : Bytes)
    → measure (scan initial_whitespace value false cs).input < length cs + 1
scan_initial-measure value [] = unfold scan in omega arith
scan_initial-measure value (c ∷ cs) = elim (Round-cases (round initial_whitespace value c cs)) [
  | emits {t} {v} {back} e ↦
      rw (scan-emit initial_whitespace value c cs e) (ground (arith, round-initial value c cs e))
  | goes {next} {v} e ↦
      rw (scan-go initial_whitespace value c cs e) (omega (arith, scan-measure next v false cs))
  | skips {next} {v} e ↦
      rw (scan-skip initial_whitespace value c cs e) (omega (arith, scan-measure next v true cs))
  | cuts e ↦ rw (scan-cut initial_whitespace value c cs e) (omega arith)
]

pub parse_token-measure :
    (i : IStream) → ((parse_token i).token_type ≡ eof) ⊎ (measure (parse_token i).input < measure i)
unfolding parse_token at_end
parse_token-measure i = elim (Bool-cases i.good) [
  | inl good ↦ inr (rw (good, parse_token) (scan_initial-measure [] i.rest))
  | inr bad ↦ inl (ground arith)
]

-- What is done with a token leaves the stream as it is, and ends the loop at the end of the file.
on_token-config_file :
    (s : ParseState) (t : TokenType) (v : Bytes) (s' : ParseState)
    → on_token s t v ≡ ok (again s')
    → (s'.config_file ≡ s.config_file) × (t ≢ eof)
unfolding on_token
on_token-config_file s normal v s' e = ground arith
on_token-config_file s quoted_string v s' e = ground arith
on_token-config_file s _ v s' e = ground arith

-- A round that goes on leaves less of the stream.
pub turn-measure :
    (s : ParseState) {s' : ParseState}
    → turn s ≡ ok (again s')
    → measure s'.config_file < measure s.config_file
unfolding turn
turn-measure s {s'} e =
    let i = s.config_file in
    let read = record s { config_file = (parse_token i).input } in
    ground (
      arith,
      on_token-config_file read (parse_token i).token_type (parse_token i).value s',
      parse_token-measure i,
    )

-- A round of the loop of `Parse`, by what it does.
pub data IsTurn (r : Result Turn) : Type 0 where
  goes : {s' : ParseState} → r ≡ ok (again s') → IsTurn r
  accepts : {s' : ParseState} → r ≡ ok (return_true s') → IsTurn r
  rejects : {s' : ParseState} → r ≡ ok (return_false s') → IsTurn r
  faults : {e : Fault} → r ≡ err e → IsTurn r

pub Turn-cases : (r : Result Turn) → IsTurn r
Turn-cases (ok (again s')) = goes refl
Turn-cases (ok (return_true s')) = accepts refl
Turn-cases (ok (return_false s')) = rejects refl
Turn-cases (err e) = faults refl

module _ (fuel : ℕ) (s s' : ParseState) where
  pub parse_loop-again : turn s ≡ ok (again s') → parse_loop (suc fuel) s ≡ parse_loop fuel s'
  unfolding parse_loop
  parse_loop-again e = rw e

  pub parse_loop-true : turn s ≡ ok (return_true s') → parse_loop (suc fuel) s ≡ returns true s'
  unfolding parse_loop
  parse_loop-true e = rw e

  pub parse_loop-false : turn s ≡ ok (return_false s') → parse_loop (suc fuel) s ≡ returns false s'
  unfolding parse_loop
  parse_loop-false e = rw e

pub parse_loop-err :
    (fuel : ℕ) (s : ParseState) (e : Fault) → turn s ≡ err e → parse_loop (suc fuel) s ≡ err e
unfolding parse_loop
parse_loop-err fuel s e h = rw h

returns-ne : (b : Bool) (s : ParseState) → returns b s ≢ ok out_of_fuel
unfolding returns
returns-ne b s = ground arith

-- With more fuel than the stream can be read the loop never runs out of it.
parse_loop-total :
    (fuel : ℕ) (s : ParseState) → measure s.config_file < fuel → parse_loop fuel s ≢ ok out_of_fuel
parse_loop-total zero s lt = absurd (omega arith)
parse_loop-total (suc fuel) s lt = elim (Turn-cases (turn s)) [
  | goes {s'} e ↦
      rw (parse_loop-again fuel s s' e) (parse_loop-total fuel s' (omega (arith, turn-measure s e)))
  | accepts {s'} e ↦ rw (parse_loop-true fuel s s' e) (returns-ne true s')
  | rejects {s'} e ↦ rw (parse_loop-false fuel s s' e) (returns-ne false s')
  | faults {e} h ↦ rw (parse_loop-err fuel s e h) (λ x. cc)
]

-- `Parse` ends on every input: the fuel, two more than the bytes of the file, is never used up.
pub parse-total : (text : Bytes) (config : NginxConfig) → parse text config ≢ ok out_of_fuel
unfolding parse
parse-total text config = parse_loop-total (length text + 2) (initial text config) (omega arith)
