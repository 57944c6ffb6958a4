-- ===== src/ConfigParser/Steady.antt =====
-- One round of `Parse` on a stack that fits the bracket counter.
use aite_cs.Prelude.{
  true, false, ◌&&◌, List, [], ◌∷◌, Bytes, All, length, Result, ◌>>=◌, ok, err, empty_container,
  ◌≡◌, ◌≢◌, inl, inr, Bool-cases, ℤ, pos,
}
use aite_cs.ConfigParser.Config.{NginxConfig, nil, statement, push_token}
use aite_cs.ConfigParser.Token.{
  TokenType, start, normal, start_block, end_block, comment, statement_end, eof, error,
  quoted_string, IStream, parse_token,
}
use aite_cs.ConfigParser.Loop.{
  ConfigStack, live, emptied, ParseState, Turn, again, return_true, return_false, on_token, turn,
  on_quoted, ends_quoted, after, is_word, may_open, may_close, may_end, is_zero, is_negative,
  on_top, push_config, pop, increment, decrement,
}
use aite_cs.ConfigParser.Shape.{
  IsWellFormed, empty, first_token-Changed, push_token-Changed, reset_child-Changed,
}

-- An enclosing configuration has a last statement, whose child block is open.
abbrev pub IsOpen : NginxConfig → Type 0
IsOpen config = (config ≢ nil) × IsWellFormed config

-- The stack, the counter and the last token fit.
pub data Fits : ConfigStack → ℤ → TokenType → Type 0 where
  inside :
      {top : NginxConfig} {outer : List NginxConfig} {n : ℤ} {last : TokenType}
      → IsWellFormed top
      → All IsOpen outer
      → n ≡ pos (length outer)
      → (is_word last ≡ true → top ≢ nil)
      → Fits (live top outer) n last
  outside :
      {config : NginxConfig} {n : ℤ} {last : TokenType}
      → IsWellFormed config
      → is_negative n ≡ true
      → Fits (emptied config) n last

-- A stack that the caller's configuration can be read off.
pub data IsRooted : ConfigStack → Type 0 where
  inside :
      {top : NginxConfig} {outer : List NginxConfig}
      → IsWellFormed top
      → All IsOpen outer
      → IsRooted (live top outer)
  outside : {config : NginxConfig} → IsWellFormed config → IsRooted (emptied config)

Fits-IsRooted :
    {stack : ConfigStack} {n : ℤ} {last : TokenType} → Fits stack n last → IsRooted stack
Fits-IsRooted (inside w o _ _) = inside w o
Fits-IsRooted (outside w _) = outside w

-- What a round may do from a state that fits.
pub data IsSteady : Result Turn → Type 0 where
  steps :
      {s : ParseState}
      → Fits s.config_stack s.bracket_ctr s.last_token_type
      → IsSteady (ok (again s))
  ends : {s : ParseState} → IsRooted s.config_stack → IsSteady (ok (return_true s))
  breaks : {s : ParseState} → IsRooted s.config_stack → IsSteady (ok (return_false s))
  faulty : IsSteady (err empty_container)

abbrev in_state : NginxConfig → List NginxConfig → TokenType → ℤ → IStream → ParseState
in_state top outer last n i = record {
  config_stack = live top outer;
  last_token_type = last;
  bracket_ctr = n;
  config_file = i;
}

module _ (top : NginxConfig) (outer : List NginxConfig) (last : TokenType) (n : ℤ) (i : IStream)
    (w : IsWellFormed top) (o : All IsOpen outer) (ctr : n ≡ pos (length outer))
    (back : is_word last ≡ true → top ≢ nil) where
  normal-IsSteady : (v : Bytes) → IsSteady (on_token (in_state top outer last n i) normal v)
  unfolding on_token on_top
  normal-IsSteady v = elim (Bool-cases (may_open last)) [
    | inr bad ↦ rw bad (breaks (inside w o))
    | inl good ↦ elim (Bool-cases (is_word last)) [
      | inl word ↦
          let c = push_token-Changed top v (back word) w in
          rw (good, word, c.done) (steps (inside c.wf o ctr (λ _. c.nonempty)))
      | inr other ↦
          let c = first_token-Changed top v w in
          rw (good, other, c.done) (steps (inside c.wf o ctr (λ _. c.nonempty)))
    ]
  ]

  eof-IsSteady : (v : Bytes) → IsSteady (on_token (in_state top outer last n i) eof v)
  unfolding on_token
  eof-IsSteady v = elim (Bool-cases (is_zero n && may_end last)) [
    | inl good ↦ rw good (ends (inside w o))
    | inr bad ↦ rw bad (breaks (inside w o))
  ]

  end-IsSteady : (v : Bytes) → IsSteady (on_token (in_state top outer last n i) statement_end v)
  unfolding on_token
  end-IsSteady v = elim (Bool-cases (is_word last)) [
    | inl good ↦ rw good (steps (inside w o ctr (λ e. cc)))
    | inr bad ↦ rw bad (breaks (inside w o))
  ]

  start_block-IsSteady :
      (v : Bytes) → IsSteady (on_token (in_state top outer last n i) start_block v)
  unfolding on_token push_config increment
  start_block-IsSteady v = elim (Bool-cases (is_word last)) [
    | inl good ↦
        let c = reset_child-Changed top nil (back good) w empty in
        rw (good, c.done) (steps (inside empty ((c.nonempty, c.wf), o) (rw ctr) (λ e. cc)))
    | inr bad ↦ rw bad (breaks (inside w o))
  ]

  on_quoted-IsSteady : (v rest : Bytes) → IsSteady (on_quoted (in_state top outer last n i) v rest)
  unfolding on_quoted on_top
  on_quoted-IsSteady v [] = breaks (inside w o)
  on_quoted-IsSteady v (c ∷ cs) = elim (Bool-cases (ends_quoted c)) [
    | inr bad ↦ rw bad (breaks (inside w o))
    | inl good ↦ rw good (push_quoted top w v)
  ]
    where
      push_quoted :
          (t : NginxConfig)
          → IsWellFormed t
          → (v : Bytes)
          → IsSteady (
              on_top (live t outer) (λ u. push_token u v) >>= λ stack.
              after
                (record (in_state top outer last n i) { config_stack = live t outer })
                quoted_string
                stack)
      push_quoted nil _ v = unfold push_token in faulty
      push_quoted (statement ts d rest) wt v =
          let c = push_token-Changed (statement ts d rest) v (λ e. cc) wt in
          rw c.done (steps (inside c.wf o ctr (λ _. c.nonempty)))

  quoted-IsSteady : (v : Bytes) → IsSteady (on_token (in_state top outer last n i) quoted_string v)
  unfolding on_token
  quoted-IsSteady v = elim (Bool-cases i.good) [
    | inl good ↦ rw good (on_quoted-IsSteady v i.rest)
    | inr bad ↦ rw bad (breaks (inside w o))
  ]

end_block-IsSteady :
    (top : NginxConfig) (outer : List NginxConfig) (last : TokenType) (n : ℤ) (i : IStream)
    → IsWellFormed top
    → All IsOpen outer
    → n ≡ pos (length outer)
    → (v : Bytes) → IsSteady (on_token (in_state top outer last n i) end_block v)
unfolding on_token pop decrement
end_block-IsSteady top [] last n i w o ctr v = elim (Bool-cases (may_close last)) [
  | inl good ↦ rw good (steps (outside w (rw ctr)))
  | inr bad ↦ rw bad (breaks (inside w o))
]
end_block-IsSteady top (parent ∷ outer) last n i w ((ne, wp), o) ctr v =
    elim (Bool-cases (may_close last)) [
      | inl good ↦
          let c = reset_child-Changed parent top ne wp w in
          rw (good, c.done) (steps (inside c.wf o (rw ctr) (λ e. cc)))
      | inr bad ↦ rw bad (breaks (inside w ((ne, wp), o)))
    ]

on_token-IsSteady :
    (stack : ConfigStack) (last : TokenType) (n : ℤ) (i : IStream) (t : TokenType) (v : Bytes)
    → is_negative n ≡ false
    → Fits stack n last
    → IsSteady (
        on_token
          (record {
            config_stack = stack;
            last_token_type = last;
            bracket_ctr = n;
            config_file = i;
          })
          t
          v)
unfolding on_token
on_token-IsSteady stack last n i t v pos_n (outside w neg) = absurd (cc)
on_token-IsSteady stack last n i normal v _ (inside w o ctr b) =
    normal-IsSteady _ _ last n i w o ctr b v
on_token-IsSteady stack last n i quoted_string v _ (inside w o ctr b) =
    quoted-IsSteady _ _ last n i w o ctr b v
on_token-IsSteady stack last n i start_block v _ (inside w o ctr b) =
    start_block-IsSteady _ _ last n i w o ctr b v
on_token-IsSteady stack last n i end_block v _ (inside w o ctr b) =
    end_block-IsSteady _ _ last n i w o ctr v
on_token-IsSteady stack last n i statement_end v _ (inside w o ctr b) =
    end-IsSteady _ _ last n i w o ctr b v
on_token-IsSteady stack last n i eof v _ (inside w o ctr b) = eof-IsSteady _ _ last n i w o ctr b v
on_token-IsSteady stack last n i comment v _ (inside w o ctr b) = steps (inside w o ctr b)
on_token-IsSteady stack last n i error v _ (inside w o ctr b) = breaks (inside w o)
on_token-IsSteady stack last n i start v _ (inside w o ctr b) = breaks (inside w o)

pub turn-IsSteady :
    (s : ParseState) → Fits s.config_stack s.bracket_ctr s.last_token_type → IsSteady (turn s)
unfolding turn
turn-IsSteady s f = elim (Bool-cases (is_negative s.bracket_ctr)) [
  | inl neg ↦ rw neg (breaks (Fits-IsRooted f))
  | inr n ↦ rw n (
      on_token-IsSteady s.config_stack s.last_token_type s.bracket_ctr
        (parse_token s.config_file).input (parse_token s.config_file).token_type
        (parse_token s.config_file).value n f)
]
