-- ===== src/Session.antt =====
-- src/session.cc: what a session does with the bytes that it has read.
pub mod Body
pub mod Callbacks
pub mod Split
pub mod Run
pub mod Found
pub mod Effects
pub mod Counted
pub mod Refused
pub mod Alive
pub mod Guarded
use aite_cs.Prelude.{
  ℕ, Bool, true, false, ◌||◌, ◌-◌, [], ◌∷◌, ◌++◌, Option, none, some, Bytes, length, take, leb,
  ◌==◌, if◌then◌else◌, ℤ, pos, negsuc,
}
use aite_cs.RequestParser.Machine.{Tribool, is_true, is_false, indeterminate}
use aite_cs.Server.State.{Pointer}
use aite_cs.Standard.Ints.{stoi}

-- What a callback does next: an answer of its own, another read of the header, the handler's answer to
-- the request with a body, or a read of so many bytes behind the body so far.
pub data Action : Type 0 where
  bad_request : Action
  bad_uri : Action
  read_header : Action
  respond : Pointer → Bytes → Action
  read_body : ℕ → Bytes → Action

-- The value of the field `Content-Length`, which is empty where there is none.
unfoldable pub content_length_of : Bytes → ℤ
content_length_of [] = pos 0
content_length_of (c ∷ cs) = elim (stoi (c ∷ cs)) [ none ↦ negsuc 0 | some n ↦ n ]

abbrev pub negated : Tribool → Bool
negated is_false = true
negated _ = false

-- A request whose header was accepted: `body` is what the request holds, and `left` what the read has
-- brought behind the header.
unfoldable pub take_body : Pointer → ℕ → Bytes → Bytes → Action
take_body handler content_length body left =
    if content_length == 0
    then respond handler body
    else if leb content_length (length left)
    then respond handler (body ++ take content_length left)
    else read_body (content_length - length left) (body ++ left)

unfoldable pub on_header : Tribool → ℕ → Option Pointer → Bytes → Bytes → Action
on_header is_true content_length none body left = bad_uri
on_header is_true content_length (some handler) body left =
    take_body handler content_length body left
on_header _ content_length handler body left = read_header

-- `handle_read_header` without an error: the result of the parser, the field `Content-Length`, the handler
-- that the server finds.
unfoldable pub handle_read_header : Tribool → Bytes → Option Pointer → Bytes → Bytes → Action
handle_read_header request_parse_result field handler body left = elim (content_length_of field) [
  | negsuc _ ↦ bad_request
  | pos n ↦
      if negated request_parse_result
      then bad_request
      else on_header request_parse_result n handler body left
]

-- `handle_read_body` without an error.
unfoldable pub handle_read_body : Option Pointer → Bytes → Bytes → Action
handle_read_body none body read = bad_request
handle_read_body (some handler) body read = respond handler (body ++ read)
