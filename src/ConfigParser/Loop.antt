-- ===== src/ConfigParser/Loop.antt =====
-- `NginxConfigParser::Parse` on a stream: the loop over the tokens.
use aite_cs.Prelude.{
  ℕ, zero, suc, ◌+◌, Bool, true, false, ◌&&◌, ◌||◌, List, [], ◌∷◌, Bytes, ◌==◌, length,
  if◌then◌else◌, ℤ, pos, negsuc, Result, ok, err, ◌>>=◌, empty_stack,
}
use aite_cs.ConfigParser.Config.{NginxConfig, nil, emplace_back, push_token, reset_child}
use aite_cs.ConfigParser.Token.{
  TokenType, start, normal, start_block, end_block, comment, statement_end, eof, error,
  quoted_string, IStream, parse_token, is_space,
}

-- `std::stack<NginxConfig *>`, as the configuration on top and those that enclose it. Each one but the
-- last is the child block of the last statement of the one below it, and is put there when it is
-- popped: until then nobody reads it. `emptied` keeps the caller's configuration when its pointer
-- has been popped too.
pub data ConfigStack : Type 0 where
  live : NginxConfig → List NginxConfig → ConfigStack
  emptied : NginxConfig → ConfigStack

pub record ParseState : Type 0 where
  pub config_stack : ConfigStack
  pub last_token_type : TokenType
  pub bracket_ctr : ℤ
  pub config_file : IStream

-- One round of the loop goes on, or leaves it: with `return true`, or by a `break`.
pub data Turn : Type 0 where
  again : ParseState → Turn
  return_true : ParseState → Turn
  return_false : ParseState → Turn

unfoldable pub increment : ℤ → ℤ
increment (pos n) = pos (suc n)
increment (negsuc zero) = pos 0
increment (negsuc (suc n)) = negsuc n

unfoldable pub decrement : ℤ → ℤ
decrement (pos zero) = negsuc 0
decrement (pos (suc n)) = pos n
decrement (negsuc n) = negsuc (suc n)

abbrev pub is_negative : ℤ → Bool
is_negative (pos _) = false
is_negative (negsuc _) = true

abbrev pub is_zero : ℤ → Bool
is_zero (pos zero) = true
is_zero _ = false

-- The tests on `last_token_type`.
abbrev pub is_word : TokenType → Bool
is_word normal = true
is_word quoted_string = true
is_word _ = false

abbrev pub may_open : TokenType → Bool
may_open start = true
may_open statement_end = true
may_open start_block = true
may_open end_block = true
may_open normal = true
may_open quoted_string = true
may_open _ = false

abbrev pub may_close : TokenType → Bool
may_close statement_end = true
may_close end_block = true
may_close start_block = true
may_close _ = false

abbrev pub may_end : TokenType → Bool
may_end statement_end = true
may_end end_block = true
may_end start = true
may_end _ = false

-- `config_stack.top()->…`, where the change may fault.
unfoldable pub on_top : ConfigStack → (NginxConfig → Result NginxConfig) → Result ConfigStack
on_top (live top outer) f = do top' ← f top; ok (live top' outer)
on_top (emptied root) f = err empty_stack

-- The child of the last statement of the top becomes a new configuration, which is pushed.
unfoldable pub push_config : ConfigStack → Result ConfigStack
push_config (live top outer) = do top' ← reset_child top nil; ok (live nil (top' ∷ outer))
push_config (emptied root) = err empty_stack

-- `config_stack.pop()`
unfoldable pub pop : ConfigStack → Result ConfigStack
pop (live top []) = ok (emptied top)
pop (live top (parent ∷ outer)) = do parent' ← reset_child parent top; ok (live parent' outer)
pop (emptied root) = err empty_stack

-- `last_token_type = token_type` at the end of the body.
abbrev pub after : ParseState → TokenType → ConfigStack → Result Turn
after s t stack = ok (again (record s { config_stack = stack; last_token_type = t }))

unfoldable pub add_word : Bytes → Bool → NginxConfig → Result NginxConfig
add_word token continues top = push_token (if continues then top else emplace_back top) token

unfoldable pub on_normal : ParseState → Bytes → Result Turn
on_normal s token =
    if may_open s.last_token_type
    then (on_top s.config_stack (add_word token (is_word s.last_token_type)) >>= λ stack.
        after s normal stack)
    else ok (return_false s)

-- What may stand behind a quoted string.
unfoldable pub ends_quoted : ℕ → Bool
unfolding is_space
ends_quoted c = is_space c || c == b';' || c == b'{'

unfoldable pub on_quoted : ParseState → Bytes → Bytes → Result Turn
on_quoted s token [] = ok (return_false s)
on_quoted s token (next_char ∷ _) =
    if ends_quoted next_char
    then (on_top s.config_stack (λ top. push_token top token) >>= λ stack.
        after s quoted_string stack)
    else ok (return_false s)

unfoldable pub on_start_block : ParseState → Result Turn
on_start_block s =
    let counted = record s { bracket_ctr = increment s.bracket_ctr } in
    if is_word s.last_token_type
    then (push_config s.config_stack >>= λ stack. after counted start_block stack)
    else ok (return_false counted)

unfoldable pub on_end_block : ParseState → Result Turn
on_end_block s =
    let counted = record s { bracket_ctr = decrement s.bracket_ctr } in
    if may_close s.last_token_type
    then (pop s.config_stack >>= λ stack. after counted end_block stack)
    else ok (return_false counted)

unfoldable pub on_eof : ParseState → Turn
on_eof s =
    if is_zero s.bracket_ctr && may_end s.last_token_type then return_true s else return_false s

-- The chain of tests on `token_type`, with the stream behind the token in the state.
unfoldable pub on_token : ParseState → TokenType → Bytes → Result Turn
unfolding add_word on_normal on_quoted on_start_block on_end_block on_eof ends_quoted
on_token s error token = ok (return_false s)
on_token s comment token = ok (again s)
on_token s start token = ok (return_false s)
on_token s normal token = on_normal s token
on_token s quoted_string token =
    if s.config_file.good then on_quoted s token s.config_file.rest else ok (return_false s)
on_token s statement_end token =
    if is_word s.last_token_type then after s statement_end s.config_stack else ok (return_false s)
on_token s start_block token = on_start_block s
on_token s end_block token = on_end_block s
on_token s eof token = ok (on_eof s)

-- One round of `while (true)`.
unfoldable pub turn : ParseState → Result Turn
turn s =
    if is_negative s.bracket_ctr
    then ok (return_false s)
    else (let t = parse_token s.config_file in
        on_token (record s { config_file = t.input }) t.token_type t.value)

-- The caller's configuration, once every block that is open is taken to its place.
unfoldable pub close : NginxConfig → List NginxConfig → Result NginxConfig
close top [] = ok top
close top (parent ∷ outer) = do parent' ← reset_child parent top; close parent' outer

unfoldable pub root : ConfigStack → Result NginxConfig
unfolding close
root (live top outer) = close top outer
root (emptied config) = ok config

pub data Outcome : Type 0 where
  returned : Bool → NginxConfig → Outcome
  out_of_fuel : Outcome

unfoldable pub returns : Bool → ParseState → Result Outcome
returns b s = do config ← root s.config_stack; ok (returned b config)

unfoldable pub parse_loop : ℕ → ParseState → Result Outcome
unfolding returns
parse_loop zero s = ok out_of_fuel
parse_loop (suc fuel) s = do
  t ← turn s
  elim t [
    | again s' ↦ parse_loop fuel s'
    | return_true s' ↦ returns true s'
    | return_false s' ↦ returns false s'
  ]

abbrev pub initial : Bytes → NginxConfig → ParseState
initial text config = record {
  config_stack = live config [];
  last_token_type = start;
  bracket_ctr = pos 0;
  config_file = record { rest = text; good = true };
}

-- `Parse` on a fresh stream over `text`, with the configuration that the caller passes.
unfoldable pub parse : Bytes → NginxConfig → Result Outcome
unfolding parse_loop turn root
parse text config = parse_loop (length text + 2) (initial text config)
