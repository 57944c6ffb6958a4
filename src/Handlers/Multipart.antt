-- ===== src/Handlers/Multipart.antt =====
-- src/handlers/meme_handler.cc: how the form of a new meme is split into its parts.
pub mod RoundTrip
use aite_cs.Prelude.{
  ℕ, zero, suc, Bool, true, false, ◌&&◌, ◌||◌, List, [], ◌∷◌, ◌++◌, Option, none, some, Bytes,
  codes, equal, ◌==◌, if◌then◌else◌,
}

-- A stream is the lines that `std::getline` takes from it; a last line needs no newline.
abbrev pub lines_from : Bytes → Bytes → List Bytes
lines_from [] [] = []
lines_from (c ∷ line) [] = (c ∷ line) ∷ []
lines_from line (c ∷ cs) =
    let ended = line ∷ lines_from [] cs in
    let longer = lines_from (line ++ c ∷ []) cs in if c == b'\n' then ended else longer

abbrev pub open_line : Bytes → Bytes
open_line boundary = codes "--" ++ (boundary ++ b'\r' ∷ [])

abbrev pub close_line : Bytes → Bytes
close_line boundary = codes "--" ++ (boundary ++ b'-' ∷ b'-' ∷ b'\r' ∷ [])

unfoldable pub is_boundary : Bytes → Bytes → Bool
is_boundary boundary line = equal line (close_line boundary) || equal line (open_line boundary)

pub data PartState : Type 0 where
  reading_header reading_body reached_boundary : PartState

-- `ss_part_header` and `ss_part_body`.
pub record Part : Type 0 where
  pub header : Bytes
  pub body : Bytes

-- What a call of `parse` leaves: whether the boundary was reached, the part, and the rest of the stream.
pub record PartRead : Type 0 where
  pub reached : Bool
  pub part : Part
  pub rest : List Bytes

abbrev pub ends_cr : Bytes → Bool
ends_cr [] = false
ends_cr (c ∷ []) = c == b'\r'
ends_cr (c ∷ cs) = ends_cr cs

abbrev pub add_header : Part → Bytes → Part
add_header part line = record part { header = part.header ++ (line ++ b'\n' ∷ []) }

abbrev pub add_body : Part → Bytes → Part
add_body part line = record part { body = part.body ++ (line ++ b'\n' ∷ []) }

-- The loop, by the state, `crlf_end`, and what has been read.
unfoldable pub read_part : Bytes → PartState → Bool → Part → List Bytes → PartRead
read_part boundary reached_boundary crlf_end part lines = record {
  reached = true;
  part = part;
  rest = lines;
}
read_part boundary reading_header crlf_end part [] = record {
  reached = false;
  part = part;
  rest = [];
}
read_part boundary reading_body crlf_end part [] = record {
  reached = false;
  part = part;
  rest = [];
}
read_part boundary reading_header crlf_end part (line ∷ lines) =
    let closed = read_part boundary reached_boundary (ends_cr line) part lines in
    let to_body = read_part boundary reading_body (ends_cr line) part lines in
    let in_header = read_part boundary reading_header (ends_cr line) (add_header part line) lines in
    if is_boundary boundary line
    then closed
    else if equal line (codes "\r") && crlf_end
    then to_body
    else in_header
read_part boundary reading_body crlf_end part (line ∷ lines) =
    let closed = read_part boundary reached_boundary (ends_cr line) part lines in
    let in_body = read_part boundary reading_body (ends_cr line) (add_body part line) lines in
    if is_boundary boundary line then closed else in_body

abbrev pub empty_part : Part
empty_part = record { header = []; body = [] }

-- `MemeHandler::parse`
unfoldable pub parse_part : Bytes → List Bytes → PartRead
parse_part boundary lines = read_part boundary reading_header false empty_part lines
