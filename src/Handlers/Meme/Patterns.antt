-- ===== src/Handlers/Meme/Patterns.antt =====
-- src/handlers/meme_handler.cc: the two regular expressions, and `std::remove_if` with `isspace`.
use aite_cs.Prelude.{
  ℕ, Bool, not, ◌&&◌, ◌||◌, [], ◌∷◌, ◌++◌, Option, none, some, Bytes, codes, length, drop, leb,
  ◌==◌, if◌then◌else◌,
}
use aite_cs.Handlers.ReverseProxy.{is_prefix}
use aite_cs.Standard.Ints.{is_digit, is_space}

abbrev pub is_alnum : ℕ → Bool
is_alnum c = is_digit c || leb b'a' c && leb c b'z' || leb b'A' c && leb c b'Z'

abbrev pub is_dash : ℕ → Bool
is_dash c = c == b'-'

-- The longest prefix of characters that pass a test, and what is behind it.
unfoldable pub run : (ℕ → Bool) → Bytes → Bytes
run test [] = []
run test (c ∷ cs) = if test c then c ∷ run test cs else []

unfoldable pub past : (ℕ → Bool) → Bytes → Bytes
past test [] = []
past test (c ∷ cs) = if test c then past test cs else c ∷ cs

-- `boundary=([-]{4,}[a-zA-Z0-9]{10,})` at one place. A dash is not alphanumeric, so the longest runs are
-- the only match.
unfoldable pub boundary_at : Bytes → Option Bytes
boundary_at text =
    let rest = drop 9 text in
    let dashes = run is_dash rest in
    let word = run is_alnum (past is_dash rest) in
    if is_prefix (codes "boundary=") text && leb 4 (length dashes) && leb 10 (length word)
    then some (codes "boundary=" ++ (dashes ++ word))
    else none

-- The leftmost match.
unfoldable pub search_boundary : Bytes → Option Bytes
search_boundary [] = none
search_boundary (c ∷ cs) = elim (boundary_at (c ∷ cs)) [
  | some found ↦ some found
  | none ↦ search_boundary cs
]

-- `substr(find('-'))`; without a dash an exception.
unfoldable pub from_dash : Bytes → Option Bytes
from_dash [] = none
from_dash (c ∷ cs) = if is_dash c then some (c ∷ cs) else from_dash cs

abbrev pub is_word : ℕ → Bool
is_word c = is_alnum c || c == b'_'

abbrev pub in_line : ℕ → Bool
in_line c = not (c == b'\n' || c == b'\r')

-- The leftmost match of `\b(Content-Type: )(.*)`, behind a character that may belong to a word.
unfoldable pub search_type : Bool → Bytes → Option Bytes
search_type after_word [] = none
search_type after_word (c ∷ cs) =
    let later = search_type (is_word c) cs in
    if not after_word && is_prefix (codes "Content-Type: ") (c ∷ cs)
    then some (run in_line (c ∷ cs))
    else later

-- `style.erase(std::remove_if(..., ::isspace))`
unfoldable pub remove_spaces : Bytes → Bytes
remove_spaces [] = []
remove_spaces (c ∷ cs) = if is_space c then remove_spaces cs else c ∷ remove_spaces cs
