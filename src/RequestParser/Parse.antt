-- ===== src/RequestParser/Parse.antt =====
-- `request_parser::parse`: the loop over the characters of one read, without the call of `translate` for an
-- accepted request.
use aite_cs.Prelude.{[], ◌∷◌, Bytes, Result, ok, ◌>>=◌}
use aite_cs.RequestParser.Machine.{
  State, method_start, ParserRequest, blank, Tribool, indeterminate, Consumed, consume,
}

-- The result, the parser's state after the call, the request as read, and what lies from the
-- returned `begin` up to `end`.
pub record Parsed : Type 0 where
  pub result : Tribool
  pub state_ : State
  pub req : ParserRequest
  pub rest : Bytes

-- The constructor, and `request_parser::reset`.
abbrev pub reset : State
reset = method_start

abbrev pub decide_on : Consumed → Bytes → Result Parsed → Result Parsed
decide_on c rest next = elim c.result [
  | indeterminate ↦ next
  | r ↦ ok (record { result = r; state_ = c.state_; req = c.req; rest = rest })
]

unfoldable pub parse_from : State → ParserRequest → Bytes → Result Parsed
parse_from s req [] = ok (record { result = indeterminate; state_ = s; req = req; rest = [] })
parse_from s req (c ∷ cs) = do
  step ← consume s req c
  let next = parse_from step.state_ step.req cs
  decide_on step cs next

-- A call of `parse` starts with a fresh request, in the state that the call before has left.
unfoldable pub read_request : State → Bytes → Result Parsed
unfolding parse_from
read_request s input = parse_from s blank input
