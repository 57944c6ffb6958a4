-- ===== src/ConfigParser/Quirks.antt =====
-- What `ParseToken` and `Parse` make of single quotes, of a statement that begins with a quoted string,
-- and of a single character at the end of the file.
use aite_cs.Prelude.{
  ℕ, ◌+◌, true, false, List, [], ◌∷◌, ◌++◌, Bytes, All, ok, err, empty_container, ◌≡◌, ◌≢◌, refl,
  ◌∙◌, arith, length, append_assoc,
}
use aite_cs.ConfigParser.Config.{NginxConfig, nil, statement, Child, push_token}
use aite_cs.ConfigParser.Token.{
  TokenType, start, eof, quoted_string, parse_token, round, go, emit, scan, at_end, single_quote,
  initial_whitespace, ended,
}
use aite_cs.ConfigParser.Source.{
  quoted, word_text, word_value, Source, text, config_of, IsSource, IsFirst,
}
use aite_cs.ConfigParser.Loop.{
  again, return_true, on_token, on_quoted, ends_quoted, turn, returned, returns, parse, root,
  may_end, on_top,
}
use aite_cs.ConfigParser.Progress.{scan-go, scan-emit}
use aite_cs.ConfigParser.Tokens.{good_stream, parse_token-quoted, round_first}
use aite_cs.ConfigParser.Append.{parse_loop-Ends, done, append, at_state, push_token-append}
use aite_cs.ConfigParser.RoundTrip.{after_source, source-Ends, after_source-may_end}

-- Every byte twice.
abbrev pub doubled : Bytes → Bytes
doubled [] = []
doubled (c ∷ cs) = c ∷ c ∷ doubled cs

abbrev IsSingle : Bytes → Type 0
IsSingle = All (λ c. (c ≢ b'\\') × (c ≢ b'\''))

round_single :
    (value : Bytes) (c : ℕ) (cs : Bytes)
    → c ≢ b'\\'
    → c ≢ b'\''
    → round single_quote value c cs ≡ go single_quote ((value ++ c ∷ []) ++ c ∷ [])
unfolding round
round_single value c cs h k = ground arith

round_single_close :
    (value cs : Bytes)
    → round single_quote value b'\'' cs
      ≡ emit quoted_string ((value ++ b'\'' ∷ []) ++ b'\'' ∷ []) false
unfolding round
round_single_close value cs = refl

round_single_open :
    (cs : Bytes) → round initial_whitespace [] b'\'' cs ≡ go single_quote (b'\'' ∷ [])
unfolding round
round_single_open cs = refl

scan-single :
    (body value rest : Bytes)
    → IsSingle body
    → scan single_quote value false (body ++ (b'\'' ∷ rest)) ≡ record {
      token_type = quoted_string;
      value = value ++ (doubled body ++ b'\'' ∷ b'\'' ∷ []);
      input = good_stream rest;
    }
scan-single [] value rest _ =
    scan-emit single_quote value b'\'' rest (round_single_close value rest) ∙ rw append_assoc
scan-single (c ∷ body) value rest ((h, k), hs) =
    scan-go single_quote value c _ (round_single value c _ h k)
    ∙ scan-single body ((value ++ c ∷ []) ++ c ∷ []) rest hs
    ∙ simp append_assoc

-- A string in single quotes, with no backslash in it, comes out with every character of its body and
-- its closing quote twice.
pub parse_token-single :
    (body rest : Bytes)
    → IsSingle body
    → parse_token (good_stream (b'\'' ∷ (body ++ (b'\'' ∷ rest)))) ≡ record {
      token_type = quoted_string;
      value = b'\'' ∷ (doubled body ++ b'\'' ∷ b'\'' ∷ []);
      input = good_stream rest;
    }
unfolding parse_token
parse_token-single body rest h =
    scan-go initial_whitespace [] b'\'' _ (round_single_open _)
    ∙ scan-single body (b'\'' ∷ []) rest h

-- A string in double quotes at the start of a statement, with no backslash in it and with a byte behind it
-- that may stand there, is added to the statement before it, even behind a `;` or a closing bracket. Where there is none, as at the start of a file or of a block, this takes the
-- last element of an empty vector.
pub turn-quoted_first :
    (top : NginxConfig) (ts : List Bytes) (c : Child) (outer : List NginxConfig) (last : TokenType)
    (n : ℕ) (body : Bytes) (d : ℕ) (ds : Bytes)
    → All (λ b. b ≢ b'\\') body
    → ends_quoted d ≡ true
    → (turn (
          at_state
            (append top (statement ts c nil))
            outer
            last
            n
            (word_text (quoted body) (d ∷ ds)))
        ≡ ok (
            again (
              at_state
                (append top (statement (ts ++ word_value (quoted body) ∷ []) c nil))
                outer
                quoted_string
                n
                (d ∷ ds))))
      × (turn (at_state nil outer last n (word_text (quoted body) (d ∷ ds))) ≡ err empty_container)
unfolding turn on_token on_top on_quoted
turn-quoted_first top ts c outer last n body d ds h q = (
  rw (parse_token-quoted body (d ∷ ds) h, q, push_token-append top ts c (word_value (quoted body))),
  rw (parse_token-quoted body (d ∷ ds) h, q) (unfold push_token in refl),
)

single-eof :
    (c : ℕ)
    → IsFirst c
    → parse_token (good_stream (c ∷ []))
      ≡ record { token_type = eof; value = c ∷ []; input = ended }
unfolding parse_token
single-eof c h =
    scan-go initial_whitespace [] c [] (round_first c [] h) ∙ (unfold scan at_end in refl)

single-turn :
    (top : NginxConfig) (last : TokenType) (c : ℕ)
    → IsFirst c
    → may_end last ≡ true
    → turn (at_state top [] last 0 (c ∷ []))
      ≡ ok (return_true (record (at_state top [] last 0 []) { config_file = ended }))
unfolding turn on_token
single-turn top last c h e = rw (single-eof c h, e)

-- One plain character at the very end of a well-formed file is dropped: the file is accepted as if it
-- were not there.
pub parse-last_character :
    (src : Source) (config : NginxConfig) (c : ℕ)
    → IsSource src
    → IsFirst c
    → parse (text src (c ∷ [])) config ≡ ok (returned true (append config (config_of src)))
unfolding parse
parse-last_character src config c h hc =
    let whole = append config (config_of src) in
    let last = after_source start src in
    parse_loop-Ends (length (text src (c ∷ [])) + 2) _
      (source-Ends src [] 0 config start (c ∷ []) h refl refl
        (done (single-turn whole last c hc (after_source-may_end src start refl))))
      (omega arith)
    ∙ unfold returns root in refl
