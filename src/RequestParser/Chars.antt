-- ===== src/RequestParser/Chars.antt =====
-- The character classes of src/request_parser.cc, on a `char` promoted to `int`.
use aite_cs.Prelude.{ℕ, ℤ, pos, negsuc, Bool, false, ◌||◌, ◌&&◌, leb, ◌==◌}

unfoldable pub is_char : ℤ → Bool
is_char (pos c) = leb 0 c && leb c 127
is_char (negsuc _) = false

unfoldable pub is_ctl : ℤ → Bool
is_ctl (pos c) = leb 0 c && leb c 31 || c == 127
is_ctl (negsuc _) = false

tspecial : ℕ → Bool
tspecial c =
    c == b'('
    || c == b')'
    || c == b'<'
    || c == b'>'
    || c == b'@'
    || c == b','
    || c == b';'
    || c == b':'
    || c == b'\\'
    || c == b'"'
    || c == b'/'
    || c == b'['
    || c == b']'
    || c == b'?'
    || c == b'='
    || c == b'{'
    || c == b'}'
    || c == b' '
    || c == b'\t'

unfoldable pub is_tspecial : ℤ → Bool
unfolding tspecial
is_tspecial (pos c) = tspecial c
is_tspecial (negsuc _) = false

unfoldable pub is_digit : ℤ → Bool
is_digit (pos c) = leb b'0' c && leb c b'9'
is_digit (negsuc _) = false
