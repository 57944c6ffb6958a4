-- ===== src/RequestParser/Wire.antt =====
-- The bytes of a request header as the parser is meant to accept them, written independently of it.
use aite_cs.Prelude.{
  ℕ, ◌+◌, ◌-◌, ◌*◌, ◌≤◌, false, true, List, [], ◌∷◌, ◌++◌, map, some, ◌≡◌, ◌≢◌, ◌⊎◌, Bytes, All,
}
use aite_cs.RequestParser.Machine.{Header, ParserRequest, not_token, ctl, digit, int_max}

-- A continuation line of a header: the blanks that it begins with, and what it adds to the value.
pub record Fold : Type 0 where
  pub blanks : Bytes
  pub text : Bytes

pub record WireHeader : Type 0 where
  pub name : Bytes
  pub first : Bytes
  pub folds : List Fold

-- A request as it is written: the version numbers are digits, and headers may be folded.
pub record Wire : Type 0 where
  pub method : Bytes
  pub uri : Bytes
  pub major : Bytes
  pub minor : Bytes
  pub headers : List WireHeader

-- The number that decimal digits spell, after a number read before them.
abbrev pub value_after : ℕ → Bytes → ℕ
value_after n [] = n
value_after n (c ∷ cs) = value_after (n * 10 + c - b'0') cs

abbrev pub IsToken : Bytes → Type 0
IsToken = All (λ c. not_token c ≡ false)

abbrev pub IsUri : Bytes → Type 0
IsUri = All (λ c. (c ≢ b' ') × (ctl c ≡ false))

abbrev pub IsValue : Bytes → Type 0
IsValue = All (λ c. ctl c ≡ false)

-- Decimal digits that the parser can add up after `n` with no overflow of `int`.
abbrev pub Fits : ℕ → Bytes → Type 0
Fits n [] = Unit
Fits n (c ∷ cs) = (digit c ≡ true) × (n * 10 + c ≤ int_max) × Fits (n * 10 + c - b'0') cs

abbrev pub IsNumber : Bytes → Type 0
IsNumber ds = (ds ≢ []) × Fits 0 ds

abbrev pub IsBlank : ℕ → Type 0
IsBlank c = (c ≡ b' ') ⊎ (c ≡ b'\t')

abbrev pub NoLeadingSpace : Bytes → Type 0
NoLeadingSpace [] = Unit
NoLeadingSpace (c ∷ _) = c ≢ b' '

pub record IsFold (f : Fold) : Type 0 where
  pub nonempty : f.blanks ≢ []
  pub blanks_blank : All IsBlank f.blanks
  pub text_plain : IsValue f.text
  pub text_start : NoLeadingSpace f.text

pub record IsHeader (h : WireHeader) : Type 0 where
  pub nonempty : h.name ≢ []
  pub name_token : IsToken h.name
  pub first_plain : IsValue h.first
  pub folds_wf : All IsFold h.folds

pub record IsWire (w : Wire) : Type 0 where
  pub method_nonempty : w.method ≢ []
  pub method_token : IsToken w.method
  pub uri_plain : IsUri w.uri
  pub major_number : IsNumber w.major
  pub minor_number : IsNumber w.minor
  pub headers_wf : All IsHeader w.headers

abbrev pub render_folds : List Fold → Bytes → Bytes
render_folds [] rest = rest
render_folds (f ∷ fs) rest = f.blanks ++ (f.text ++ (b'\r' ∷ b'\n' ∷ render_folds fs rest))

abbrev pub render_headers : List WireHeader → Bytes → Bytes
render_headers [] rest = b'\r' ∷ b'\n' ∷ rest
render_headers (h ∷ hs) rest =
    h.name
    ++ (b':' ∷ b' ' ∷ (h.first ++ (b'\r' ∷ b'\n' ∷ render_folds h.folds (render_headers hs rest))))

-- A folded value is the concatenation of its lines, with no blank between them.
abbrev pub fold_value : List Fold → Bytes
fold_value [] = []
fold_value (f ∷ fs) = f.text ++ fold_value fs

abbrev pub header_meaning : WireHeader → Header
header_meaning h = record { name = h.name; value = h.first ++ fold_value h.folds }

abbrev pub render_version : Wire → Bytes → Bytes
render_version w rest =
    b'H' ∷ b'T' ∷ b'T' ∷ b'P' ∷ b'/' ∷ (w.major ++ (b'.' ∷ (w.minor ++ (b'\r' ∷ b'\n' ∷ rest))))

-- The request line and the headers, in front of `rest`.
abbrev pub render : Wire → Bytes → Bytes
render w rest =
    w.method ++ (b' ' ∷ (w.uri ++ (b' ' ∷ render_version w (render_headers w.headers rest))))

-- What the parser is to make of it.
abbrev pub meaning : Wire → ParserRequest
meaning w = record {
  method = w.method;
  uri = w.uri;
  http_version_major = some (value_after 0 w.major);
  http_version_minor = some (value_after 0 w.minor);
  headers = map header_meaning w.headers;
  body = [];
}
