-- ===== src/ConfigParser/Token.antt =====
-- `NginxConfigParser::ParseToken`, on a `std::istream` that holds the bytes not yet read.
use aite_cs.Prelude.{
  ℕ, Bool, true, false, ◌||◌, [], ◌∷◌, ◌++◌, Option, none, some, Bytes, ltb, ◌==◌, length,
  if◌then◌else◌,
}

pub data TokenType : Type 0 where
  start normal start_block end_block comment statement_end eof error quoted_string : TokenType

pub data TokenParserState : Type 0 where
  initial_whitespace single_quote double_quote in_comment in_normal : TokenParserState

-- The bytes that are left, and `good()`. A `get` at the end makes the stream not good; `unget` puts
-- the byte back that was read last, and does nothing on a stream that is not good.
pub record IStream : Type 0 where
  pub rest : Bytes
  pub good : Bool

-- What `ParseToken` returns, the value that it has written, and the stream behind it.
pub record Token : Type 0 where
  pub token_type : TokenType
  pub value : Bytes
  pub input : IStream

abbrev pub ended : IStream
ended = record { rest = []; good = false }

-- One round of the loop on the byte `c`. `emit` returns, after an `unget` if the flag is set; `go`
-- continues; `skip` continues behind the next byte, which was read too; `cut` leaves the loop,
-- because that byte is missing.
pub data Round : Type 0 where
  emit : TokenType → Bytes → Bool → Round
  go : TokenParserState → Bytes → Round
  skip : TokenParserState → Bytes → Round
  cut : Bytes → Round

-- The byte that a backslash and `next_c` stand for.
unfoldable pub escaped : ℕ → ℕ → Option ℕ
escaped quote next_c =
    if next_c == b't'
    then some b'\t'
    else if next_c == b'n'
    then some b'\n'
    else if next_c == b'r'
    then some b'\r'
    else if next_c == quote
    then some quote
    else none

-- Behind the backslash `c`; `none` puts the next byte back and keeps the backslash.
escape_round : TokenParserState → ℕ → Bytes → ℕ → Bytes → Round
escape_round state quote value c [] = cut value
escape_round state quote value c (next_c ∷ _) = elim (escaped quote next_c) [
  | some e ↦ skip state (value ++ e ∷ [])
  | none ↦ go state (value ++ c ∷ [])
]

close_round : TokenParserState → ℕ → Bytes → ℕ → Round
close_round state quote value c =
    if c == quote then emit quoted_string value false else go state value

unfoldable pub is_space : ℕ → Bool
is_space c = c == b' ' || c == b'\t' || c == b'\n' || c == b'\r'

unfoldable pub ends_normal : ℕ → Bool
ends_normal c =
    c == b' ' || c == b'\t' || c == b'\n' || c == b'\t' || c == b';' || c == b'{' || c == b'}'

-- The body of the `while` loop, with the bytes that stand behind `c`.
unfoldable pub round : TokenParserState → Bytes → ℕ → Bytes → Round
unfolding escape_round close_round is_space ends_normal escaped
round initial_whitespace value c cs =
    if c == b'{'
    then emit start_block (c ∷ []) false
    else if c == b'}'
    then emit end_block (c ∷ []) false
    else if c == b'#'
    then go in_comment (c ∷ [])
    else if c == b'"'
    then go double_quote (c ∷ [])
    else if c == b'\''
    then go single_quote (c ∷ [])
    else if c == b';'
    then emit statement_end (c ∷ []) false
    else if is_space c
    then go initial_whitespace value
    else go in_normal (value ++ c ∷ [])
round single_quote value c cs =
    let twice = value ++ c ∷ [] in
    if c == b'\\'
    then escape_round single_quote b'\'' twice c cs
    else close_round single_quote b'\'' (twice ++ c ∷ []) c
round double_quote value c cs =
    if c == b'\\'
    then escape_round double_quote b'"' value c cs
    else close_round double_quote b'"' (value ++ c ∷ []) c
round in_comment value c cs =
    if c == b'\n' || c == b'\r' then emit comment value false else go in_comment (value ++ c ∷ [])
round in_normal value c cs =
    if ends_normal c then emit normal value true else go in_normal (value ++ c ∷ [])

-- Behind the loop. The stream is not good here, so the `unget` of the source does nothing.
unfoldable pub at_end : TokenParserState → Bytes → TokenType
at_end single_quote value = error
at_end double_quote value = error
at_end in_normal value = if ltb 1 (length value) then normal else eof
at_end in_comment value = if ltb 1 (length value) then comment else eof
at_end initial_whitespace value = if ltb 1 (length value) then error else eof

abbrev pub token_at_end : TokenParserState → Bytes → Token
token_at_end state value = record { token_type = at_end state value; value = value; input = ended }

abbrev pub unget : Bool → ℕ → Bytes → IStream
unget back c cs = record { rest = if back then c ∷ cs else cs; good = true }

-- The loop. The flag says that the next byte was read already.
unfoldable pub scan : TokenParserState → Bytes → Bool → Bytes → Token
scan state value skipped [] = token_at_end state value
scan state value true (c ∷ cs) = scan state value false cs
scan state value false (c ∷ cs) = elim (round state value c cs) [
  | emit t v back ↦ record { token_type = t; value = v; input = unget back c cs }
  | go next v ↦ scan next v false cs
  | skip next v ↦ scan next v true cs
  | cut v ↦ token_at_end state v
]

unfoldable pub parse_token : IStream → Token
unfolding scan
parse_token input =
    if input.good
    then scan initial_whitespace [] false input.rest
    else token_at_end initial_whitespace []
