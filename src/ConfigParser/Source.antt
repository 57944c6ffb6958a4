-- ===== src/ConfigParser/Source.antt =====
-- Configuration files as they are meant to be written, apart from the parser: statements of words, and
-- blocks, with blanks, line ends and remarks between them, with the text that they stand for and the configuration that they mean.
use aite_cs.Prelude.{◌≡◌, ◌⊎◌, ℕ, List, [], ◌∷◌, ◌++◌, Bytes, All, ◌≢◌, ◌==◌, if◌then◌else◌}
use aite_cs.ConfigParser.Config.{NginxConfig, nil, statement, null, block}

-- A word, plain or in double quotes.
pub data Word : Type 0 where
  plain : Bytes → Word
  quoted : Bytes → Word

-- What may stand between words and marks: a blank, or a remark behind `#` with the byte that ends its line.
pub data Space : Type 0 where
  blank : ℕ → Space
  remark : Bytes → ℕ → Space

abbrev pub Gap : Type 0
Gap = List Space

-- Statements with a semicolon or a block, each with the gap in front of its first word, its other words with
-- the gaps in front of them, and the gap in front of its mark.
pub data Source : Type 0 where
  end : Gap → Source
  simple : Gap → Bytes → List (Gap × Word) → Gap → Source → Source
  nested : Gap → Bytes → List (Gap × Word) → Gap → Source → Source → Source

abbrev pub escape_quotes : Bytes → Bytes
escape_quotes [] = []
escape_quotes (c ∷ cs) = if c == b'"' then b'\\' ∷ b'"' ∷ escape_quotes cs else c ∷ escape_quotes cs

abbrev pub word_text : Word → Bytes → Bytes
word_text (plain w) rest = w ++ rest
word_text (quoted body) rest = b'"' ∷ (escape_quotes body ++ (b'"' ∷ rest))

abbrev pub gap_text : Gap → Bytes → Bytes
gap_text [] rest = rest
gap_text (blank c ∷ gap) rest = c ∷ gap_text gap rest
gap_text (remark body stop ∷ gap) rest = b'#' ∷ (body ++ stop ∷ gap_text gap rest)

abbrev pub words_text : List (Gap × Word) → Bytes → Bytes
words_text [] rest = rest
words_text ((gap, w) ∷ ws) rest = gap_text gap (word_text w (words_text ws rest))

-- The text of a file in front of `rest`.
abbrev pub text : Source → Bytes → Bytes
text (end gap) rest = gap_text gap rest
text (simple gap first ws tail later) rest =
    gap_text gap (first ++ words_text ws (gap_text tail (b';' ∷ text later rest)))
text (nested gap first ws tail inner later) rest =
    gap_text gap
      (first ++ words_text ws (gap_text tail (b'{' ∷ text inner (b'}' ∷ text later rest))))

-- A quoted word keeps its quotes.
abbrev pub word_value : Word → Bytes
word_value (plain w) = w
word_value (quoted body) = b'"' ∷ (body ++ b'"' ∷ [])

abbrev pub values : List (Gap × Word) → List Bytes
values [] = []
values ((_, w) ∷ ws) = word_value w ∷ values ws

abbrev pub config_of : Source → NginxConfig
config_of (end _) = nil
config_of (simple _ first ws _ later) = statement (first ∷ values ws) null (config_of later)
config_of (nested _ first ws _ inner later) =
    statement (first ∷ values ws) (block (config_of inner)) (config_of later)

-- The bytes that end a plain word.
abbrev pub IsInner : ℕ → Type 0
IsInner c = (c ≢ b' ') × (c ≢ b'\t') × (c ≢ b'\n') × (c ≢ b';') × (c ≢ b'{') × (c ≢ b'}')

-- The bytes that a plain word cannot begin with.
abbrev pub IsFirst : ℕ → Type 0
IsFirst c = IsInner c × (c ≢ b'#') × (c ≢ b'"') × (c ≢ b'\'') × (c ≢ b'\r')

abbrev pub IsPlain : Bytes → Type 0
IsPlain [] = ⊥
IsPlain (c ∷ cs) = IsFirst c × All IsInner cs

abbrev pub IsWord : Word → Type 0
IsWord (plain w) = IsPlain w
IsWord (quoted body) = All (λ c. c ≢ b'\\') body

-- A blank that ends a plain word, and any blank.
abbrev pub IsSeparator : ℕ → Type 0
IsSeparator c = (c ≡ b' ') ⊎ ((c ≡ b'\t') ⊎ (c ≡ b'\n'))

abbrev pub IsSpace : Space → Type 0
IsSpace (blank c) = IsSeparator c ⊎ (c ≡ b'\r')
IsSpace (remark body stop) =
    All (λ c. (c ≢ b'\n') × (c ≢ b'\r')) body × ((stop ≡ b'\n') ⊎ (stop ≡ b'\r'))

-- What stands behind a word begins with a separator, or is nothing in front of a mark.
abbrev pub Separates : Gap → Type 0
Separates [] = ⊥
Separates (blank c ∷ _) = IsSeparator c
Separates (remark _ _ ∷ _) = ⊥

abbrev pub MayTrail : Gap → Type 0
MayTrail [] = Unit
MayTrail (s ∷ gap) = Separates (s ∷ gap)

abbrev pub AreWords : List (Gap × Word) → Type 0
AreWords [] = Unit
AreWords ((gap, w) ∷ ws) = All IsSpace gap × Separates gap × IsWord w × AreWords ws

abbrev pub IsHead : Gap → Bytes → List (Gap × Word) → Gap → Type 0
IsHead gap first ws tail =
    All IsSpace gap × IsPlain first × AreWords ws × All IsSpace tail × MayTrail tail

abbrev pub IsSource : Source → Type 0
IsSource (end gap) = All IsSpace gap
IsSource (simple gap first ws tail later) = IsHead gap first ws tail × IsSource later
IsSource (nested gap first ws tail inner later) =
    IsHead gap first ws tail × IsSource inner × IsSource later
