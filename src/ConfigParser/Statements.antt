-- ===== src/ConfigParser/Statements.antt =====
-- The rounds in which `Parse` reads one statement.
use aite_cs.Prelude.{
  ◌⊎◌, arith, ℕ, suc, true, false, List, [], ◌∷◌, ◌++◌, Bytes, ok, ◌≡◌, refl, append-nil,
  append_assoc,
}
use aite_cs.ConfigParser.Config.{NginxConfig, nil, statement, null, block}
use aite_cs.ConfigParser.Token.{
  TokenType, normal, start_block, end_block, statement_end, quoted_string, ends_normal, is_space,
}
use aite_cs.ConfigParser.Source.{
  Word, plain, quoted, Gap, blank, remark, gap_text, word_text, words_text, word_value, values,
  IsPlain, IsWord, Separates, MayTrail, AreWords, IsHead,
}
use aite_cs.ConfigParser.Loop.{
  ParseState, again, on_token, on_quoted, ends_quoted, turn, is_word, may_open, may_close, on_top,
  push_config, pop, increment, decrement,
}
use aite_cs.ConfigParser.Tokens.{IsEnd, parse_token-plain, parse_token-quoted, parse_token-marks}
use aite_cs.ConfigParser.Append.{
  Ends, step, gap-Ends, append, at_state, emplace_back-append, push_token-append,
  reset_child-append, word_opens,
}

-- What may stand behind a word, plain or quoted.
abbrev pub Behind : Bytes → Type 0
Behind [] = ⊥
Behind (d ∷ ds) = IsEnd d × (ends_quoted d ≡ true)

gap-Behind : (gap : Gap) (rest : Bytes) → Separates gap → Behind (gap_text gap rest)
gap-Behind [] rest h = absurd h
gap-Behind (blank c ∷ gap) rest h =
    (unfold ends_normal in ground arith, unfold ends_quoted is_space in ground arith)
gap-Behind (remark _ _ ∷ gap) rest h = absurd h

trail-Behind :
    (gap : Gap) (d : ℕ) (rest : Bytes)
    → MayTrail gap
    → (d ≡ b';') ⊎ (d ≡ b'{')
    → Behind (gap_text gap (d ∷ rest))
trail-Behind [] d rest _ mark =
    (unfold ends_normal in ground arith, unfold ends_quoted is_space in ground arith)
trail-Behind (s ∷ gap) d rest h mark = gap-Behind (s ∷ gap) (d ∷ rest) h

words-Behind :
    (ws : List (Gap × Word)) (rest : Bytes)
    → AreWords ws
    → Behind rest
    → Behind (words_text ws rest)
words-Behind [] rest _ b = b
words-Behind ((gap, w) ∷ ws) rest (_, h, _, _) b = gap-Behind gap _ h

module _ (outer : List NginxConfig) (n : ℕ) where
  first_word :
      (top : NginxConfig) (last : TokenType) (w : Bytes) (rest : Bytes)
      → IsPlain w
      → Behind rest
      → may_open last ≡ true
      → is_word last ≡ false
      → turn (at_state top outer last n (w ++ rest))
        ≡ ok (again (at_state (append top (statement (w ∷ []) null nil)) outer normal n rest))
  unfolding turn on_token on_top
  first_word top last w [] p b opens other = absurd b
  first_word top last w (d ∷ ds) p (e, _) opens other = rw (
    parse_token-plain w d ds p e,
    opens,
    other,
    emplace_back-append top,
    push_token-append top [] null w,
  )

  next_word :
      (top : NginxConfig) (ts : List Bytes) (last : TokenType) (w : Word) (rest : Bytes)
      → IsWord w
      → Behind rest
      → is_word last ≡ true
      → (next : TokenType) × (is_word next ≡ true)
        × (turn (at_state (append top (statement ts null nil)) outer last n (word_text w rest))
            ≡ ok (
                again (
                  at_state
                    (append top (statement (ts ++ word_value w ∷ []) null nil))
                    outer
                    next
                    n
                    rest)))
  unfolding turn on_token on_top on_quoted
  next_word top ts last w [] p b word = absurd b
  next_word top ts last (plain w) (d ∷ ds) p (e, q) word = (
    normal,
    refl,
    rw (parse_token-plain w d ds p e, word_opens last word, word, push_token-append top ts null w),
  )
  next_word top ts last (quoted body) (d ∷ ds) p (e, q) word = (
    quoted_string,
    refl,
    rw (
      parse_token-quoted body (d ∷ ds) p,
      q,
      push_token-append top ts null (word_value (quoted body)),
    ),
  )

  pub marks_end :
      (top : NginxConfig) (last : TokenType) (rest : Bytes)
      → is_word last ≡ true
      → turn (at_state top outer last n (b';' ∷ rest))
        ≡ ok (again (at_state top outer statement_end n rest))
  unfolding turn on_token
  marks_end top last rest word = rw ((parse_token-marks rest).0, word)

  pub marks_open :
      (top : NginxConfig) (ts : List Bytes) (last : TokenType) (rest : Bytes)
      → is_word last ≡ true
      → turn (at_state (append top (statement ts null nil)) outer last n (b'{' ∷ rest))
        ≡ ok (
            again (
              at_state nil
                (append top (statement ts (block nil) nil) ∷ outer)
                start_block
                (suc n)
                rest))
  unfolding turn on_token push_config increment
  marks_open top ts last rest word =
      rw ((parse_token-marks rest).1, word, reset_child-append top ts null nil)

  pub marks_close :
      (top inner : NginxConfig) (ts : List Bytes) (last : TokenType) (rest : Bytes)
      → may_close last ≡ true
      → turn (
          at_state inner
            (append top (statement ts (block nil) nil) ∷ outer)
            last
            (suc n)
            (b'}' ∷ rest))
        ≡ ok (again (at_state (append top (statement ts (block inner) nil)) outer end_block n rest))
  unfolding turn on_token pop decrement
  marks_close top inner ts last rest closes =
      rw ((parse_token-marks rest).2, closes, reset_child-append top ts (block nil) inner)

  -- The words of a statement, up to what stands behind them.
  words-Ends :
      {u : ParseState} (ws : List (Gap × Word)) (top : NginxConfig) (ts : List Bytes)
      (last : TokenType) (rest : Bytes)
      → AreWords ws
      → Behind rest
      → is_word last ≡ true
      → ((next : TokenType)
          → is_word next ≡ true
          → Ends u (at_state (append top (statement (ts ++ values ws) null nil)) outer next n rest))
      → Ends u (at_state (append top (statement ts null nil)) outer last n (words_text ws rest))
  words-Ends {u} [] top ts last rest _ b word later = rw append-nil at (later last word)
  words-Ends {u} ((gap, w) ∷ ws) top ts last rest (spaces, _, p, ps) b word later =
      let (next, word', t) =
        next_word top ts last w (words_text ws rest) p (words-Behind ws rest ps b) word in
      gap-Ends gap _ outer last n _ spaces (
        step t (
          words-Ends ws top (ts ++ word_value w ∷ []) next rest ps b word'
            (λ final word''. rw append_assoc (later final word''))))

  -- A statement up to its mark.
  pub head-Ends :
      {u : ParseState} (gap : Gap) (first : Bytes) (ws : List (Gap × Word)) (tail : Gap)
      (top : NginxConfig) (last : TokenType) (d : ℕ) (ds : Bytes)
      → IsHead gap first ws tail
      → (d ≡ b';') ⊎ (d ≡ b'{')
      → may_open last ≡ true
      → is_word last ≡ false
      → ((next : TokenType)
          → is_word next ≡ true
          → Ends u (
              at_state (append top (statement (first ∷ values ws) null nil)) outer next n (d ∷ ds)))
      → Ends u (
          at_state top outer last n
            (gap_text gap (first ++ words_text ws (gap_text tail (d ∷ ds)))))
  head-Ends gap first ws tail top last d ds (spaces, p, ps, trails, ends) mark opens other later =
      let b = trail-Behind tail d ds ends mark in
      gap-Ends gap top outer last n _ spaces (
        step
          (first_word top last first (words_text ws (gap_text tail (d ∷ ds))) p
            (words-Behind ws _ ps b) opens other)
          (words-Ends ws top (first ∷ []) normal (gap_text tail (d ∷ ds)) ps b refl
            (λ next word. gap-Ends tail _ outer next n (d ∷ ds) trails (later next word))))
