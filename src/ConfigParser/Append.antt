-- ===== src/ConfigParser/Append.antt =====
-- Runs of the loop of `Parse`, and changes of the last statement of a configuration.
use aite_cs.Prelude.{
  All, ◌⊎◌, ℕ, zero, suc, ◌<◌, true, List, [], ◌∷◌, ◌++◌, Bytes, ok, ◌≡◌, refl, ◌∙◌, arith, pos,
}
use aite_cs.ConfigParser.Config.{
  NginxConfig, nil, statement, Child, null, block, emplace_back, push_token, reset_child,
}
use aite_cs.ConfigParser.Token.{TokenType, is_space}
use aite_cs.ConfigParser.Loop.{
  on_token, live, ParseState, again, return_true, turn, parse_loop, returns, is_word, may_open,
}
use aite_cs.ConfigParser.Progress.{measure, turn-measure, parse_loop-again, parse_loop-true}
use aite_cs.ConfigParser.Source.{Gap, blank, remark, gap_text, IsSpace, IsSeparator}
use aite_cs.ConfigParser.Tokens.{good_stream, parse_token-blank, parse_token-remark}

-- The rounds from a state up to the one in which `Parse` returns true.
pub data Ends (u : ParseState) : ParseState → Type 0 where
  done : {s : ParseState} → turn s ≡ ok (return_true u) → Ends u s
  step : {s t : ParseState} → turn s ≡ ok (again t) → Ends u t → Ends u s

-- Only what the first round does matters.
pub Ends-turn : {u s t : ParseState} → turn s ≡ turn t → Ends u t → Ends u s
Ends-turn same (done e) = done (same ∙ e)
Ends-turn same (step e p) = step (same ∙ e) p

pub parse_loop-Ends :
    {s : ParseState} (fuel : ℕ) (u : ParseState)
    → Ends u s
    → measure s.config_file < fuel
    → parse_loop fuel s ≡ returns true u
parse_loop-Ends zero u p lt = absurd (omega arith)
parse_loop-Ends {s} (suc fuel) u (done e) lt = parse_loop-true fuel s u e
parse_loop-Ends {s} (suc fuel) u (step {t = t'} h p) lt =
    parse_loop-again fuel s t' h ∙ parse_loop-Ends fuel u p (omega (arith, turn-measure s h))

-- The configuration `top` with more statements behind it.
abbrev pub append : NginxConfig → NginxConfig → NginxConfig
append nil more = more
append (statement ts c rest) more = statement ts c (append rest more)

pub append-nil_config : (top : NginxConfig) → append top nil ≡ top
append-nil_config nil = refl
append-nil_config (statement ts c rest) = rw (append-nil_config rest)

pub append_assoc_config : (a b c : NginxConfig) → append (append a b) c ≡ append a (append b c)
append_assoc_config nil b c = refl
append_assoc_config (statement ts d rest) b c = rw (append_assoc_config rest b c)

pub emplace_back-append :
    (top : NginxConfig) → emplace_back top ≡ append top (statement [] null nil)
unfolding emplace_back
emplace_back-append nil = refl
emplace_back-append (statement ts c rest) = rw (emplace_back-append rest)

pub push_token-append :
    (top : NginxConfig) (ts : List Bytes) (c : Child) (token : Bytes)
    → push_token (append top (statement ts c nil)) token
      ≡ ok (append top (statement (ts ++ token ∷ []) c nil))
unfolding push_token
push_token-append nil ts c token = refl
push_token-append (statement us d nil) ts c token = refl
push_token-append (statement us d (statement vs e rest)) ts c token =
    rw (push_token-append (statement vs e rest) ts c token)

pub reset_child-append :
    (top : NginxConfig) (ts : List Bytes) (c : Child) (x : NginxConfig)
    → reset_child (append top (statement ts c nil)) x ≡ ok (append top (statement ts (block x) nil))
unfolding reset_child
reset_child-append nil ts c x = refl
reset_child-append (statement us d nil) ts c x = refl
reset_child-append (statement us d (statement vs e rest)) ts c x =
    rw (reset_child-append (statement vs e rest) ts c x)

abbrev pub at_state : NginxConfig → List NginxConfig → TokenType → ℕ → Bytes → ParseState
at_state top outer last n rest = record {
  config_stack = live top outer;
  last_token_type = last;
  bracket_ctr = pos n;
  config_file = good_stream rest;
}

blank-turn :
    (top : NginxConfig) (outer : List NginxConfig) (last : TokenType) (n : ℕ) (c : ℕ) (rest : Bytes)
    → IsSeparator c ⊎ (c ≡ b'\r')
    → turn (at_state top outer last n (c ∷ rest)) ≡ turn (at_state top outer last n rest)
unfolding turn
blank-turn top outer last n c rest h =
    let space : is_space c ≡ true = unfold is_space in ground arith in
    rw (parse_token-blank c rest space) refl

remark-turn :
    (top : NginxConfig) (outer : List NginxConfig) (last : TokenType) (n : ℕ) (body : Bytes)
    (stop : ℕ) (rest : Bytes)
    → IsSpace (remark body stop)
    → turn (at_state top outer last n (b'#' ∷ (body ++ stop ∷ rest)))
      ≡ ok (again (at_state top outer last n rest))
unfolding turn on_token
remark-turn top outer last n body stop rest (h, ends) =
    rw (parse_token-remark body rest stop h ends) refl

-- A gap changes nothing.
pub gap-Ends :
    {u : ParseState} (gap : Gap) (top : NginxConfig) (outer : List NginxConfig) (last : TokenType)
    (n : ℕ) (rest : Bytes)
    → All IsSpace gap
    → Ends u (at_state top outer last n rest)
    → Ends u (at_state top outer last n (gap_text gap rest))
gap-Ends [] top outer last n rest _ p = p
gap-Ends (blank c ∷ gap) top outer last n rest (h, hs) p =
    Ends-turn (blank-turn top outer last n c (gap_text gap rest) h)
      (gap-Ends gap top outer last n rest hs p)
gap-Ends (remark body stop ∷ gap) top outer last n rest (h, hs) p =
    step (remark-turn top outer last n body stop (gap_text gap rest) h)
      (gap-Ends gap top outer last n rest hs p)

pub word_opens : (last : TokenType) → is_word last ≡ true → may_open last ≡ true
word_opens last h = ground arith
