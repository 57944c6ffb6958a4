-- ===== src/Utils/Lookup.antt =====
-- `configLookup` and `getPortNumber` of src/utils.cc.
use aite_cs.Prelude.{
  List, [], ◌∷◌, ◌++◌, Option, none, some, Bytes, All, codes, equal, equal_iff, if◌then◌else◌, ℤ,
  pos, negsuc, Result, ok, ◌≡◌, ◌≢◌, ◌∙◌, refl, subst, arith,
}
use aite_cs.ConfigParser.Config.{NginxConfig, nil, statement, Child, null, block}
use aite_cs.Standard.Ints.{atoi, IsDecimal, value_of, atoi-decimal}

-- The values of the first statement with no block that begins with the name of the field.
unfoldable pub find_field : NginxConfig → Bytes → List Bytes
find_field nil field_name = []
find_field (statement tokens (block _) rest) field_name = find_field rest field_name
find_field (statement [] null rest) field_name = find_field rest field_name
find_field (statement (t ∷ ts) null rest) field_name =
    if equal t field_name then ts else find_field rest field_name

-- The child of the first block that begins with the name.
unfoldable pub find_block : NginxConfig → Bytes → Option NginxConfig
find_block nil name = none
find_block (statement tokens null rest) name = find_block rest name
find_block (statement [] (block child) rest) name = find_block rest name
find_block (statement (t ∷ ts) (block child) rest) name =
    if equal t name then some child else find_block rest name

unfoldable pub config_lookup : NginxConfig → List Bytes → Bytes → List Bytes
config_lookup config [] field_name = find_field config field_name
config_lookup config (name ∷ block_names) field_name = elim (find_block config name) [
  | none ↦ []
  | some child ↦ config_lookup child block_names field_name
]

abbrev pub not_found : ℤ
not_found = negsuc 0

port_of : List Bytes → Result ℤ
port_of (value ∷ []) = atoi value
port_of _ = ok not_found

-- `getPortNumber`
unfoldable pub get_port_number : NginxConfig → Result ℤ
unfolding port_of
get_port_number config = port_of (config_lookup config (codes "server" ∷ []) (codes "port"))

-- The statements of a configuration, one after the other.
abbrev pub statements : NginxConfig → List (List Bytes × Child)
statements nil = []
statements (statement ts c rest) = (ts, c) ∷ statements rest

-- A statement that `find_field` passes over, and one that `find_block` passes over.
abbrev pub SkipsField : Bytes → List Bytes × Child → Type 0
SkipsField name (ts, block _) = Unit
SkipsField name ([], null) = Unit
SkipsField name (t ∷ ts, null) = t ≢ name

abbrev pub SkipsBlock : Bytes → List Bytes × Child → Type 0
SkipsBlock name (ts, null) = Unit
SkipsBlock name ([], block _) = Unit
SkipsBlock name (t ∷ ts, block _) = t ≢ name

-- What a lookup finds, told by where it stands: a chain of blocks, each the first of its name, and in
-- the last one the first field of the name.
pub data Finds (field_name : Bytes) : NginxConfig → List Bytes → List Bytes → Type 0 where
  field :
      {config : NginxConfig} {values : List Bytes} (before after : List (List Bytes × Child))
      → statements config ≡ before ++ (field_name ∷ values, null) ∷ after
      → All (SkipsField field_name) before
      → Finds field_name config [] values
  into :
      {config child : NginxConfig} {name : Bytes} {names : List Bytes} {values : List Bytes}
      (more : List Bytes) (before after : List (List Bytes × Child))
      → statements config ≡ before ++ (name ∷ more, block child) ∷ after
      → All (SkipsBlock name) before
      → Finds field_name child names values
      → Finds field_name config (name ∷ names) values

-- The first pair of a list that is split behind a pair `x`.
head_of : {A : Type 0} {a x : A} {rest xs : List A} → a ∷ rest ≡ x ∷ xs → (x ≡ a) × (rest ≡ xs)
head_of e = (cc, cc)

module _ (name : Bytes) where
  find_field-skip :
      (ts : List Bytes) (c : Child) (rest : NginxConfig)
      → SkipsField name (ts, c)
      → find_field (statement ts c rest) name ≡ find_field rest name
  unfolding find_field
  find_field-skip ts (block _) rest h = refl
  find_field-skip [] null rest h = refl
  find_field-skip (t ∷ ts) null rest h = ground (arith, equal_iff t name)

  find_field-here :
      (ts : List Bytes) (c : Child) (rest : NginxConfig) (values : List Bytes)
      → ◌≡◌ {A = List Bytes × Child} (name ∷ values, null) (ts, c)
      → find_field (statement ts c rest) name ≡ values
  unfolding find_field
  find_field-here [] c rest values e = cc
  find_field-here (t ∷ ts) null rest values e = ground (arith, equal_iff t name)
  find_field-here (t ∷ ts) (block _) rest values e = cc

  find_block-skip :
      (ts : List Bytes) (c : Child) (rest : NginxConfig)
      → SkipsBlock name (ts, c)
      → find_block (statement ts c rest) name ≡ find_block rest name
  unfolding find_block
  find_block-skip ts null rest h = refl
  find_block-skip [] (block _) rest h = refl
  find_block-skip (t ∷ ts) (block _) rest h = ground (arith, equal_iff t name)

  find_block-here :
      (ts : List Bytes) (c : Child) (rest child : NginxConfig) (more : List Bytes)
      → ◌≡◌ {A = List Bytes × Child} (name ∷ more, block child) (ts, c)
      → find_block (statement ts c rest) name ≡ some child
  unfolding find_block
  find_block-here [] c rest child more e = cc
  find_block-here (t ∷ ts) null rest child more e = cc
  find_block-here (t ∷ ts) (block _) rest child more e = ground (arith, equal_iff t name)

  find_field-at :
      (config : NginxConfig) (values : List Bytes) (before after : List (List Bytes × Child))
      → statements config ≡ before ++ (name ∷ values, null) ∷ after
      → All (SkipsField name) before
      → find_field config name ≡ values
  find_field-at nil values [] after e h = cc
  find_field-at nil values (_ ∷ _) after e h = cc
  find_field-at (statement ts c rest) values [] after e h =
      find_field-here ts c rest values (head_of e).0
  find_field-at (statement ts c rest) values (b ∷ before) after e (h, hs) =
      let (same, later) = head_of e in
      find_field-skip ts c rest (subst (SkipsField name) same h)
      ∙ find_field-at rest values before after later hs

  find_block-at :
      (config child : NginxConfig) (more : List Bytes) (before after : List (List Bytes × Child))
      → statements config ≡ before ++ (name ∷ more, block child) ∷ after
      → All (SkipsBlock name) before
      → find_block config name ≡ some child
  find_block-at nil child more [] after e h = cc
  find_block-at nil child more (_ ∷ _) after e h = cc
  find_block-at (statement ts c rest) child more [] after e h =
      find_block-here ts c rest child more (head_of e).0
  find_block-at (statement ts c rest) child more (b ∷ before) after e (h, hs) =
      let (same, later) = head_of e in
      find_block-skip ts c rest (subst (SkipsBlock name) same h)
      ∙ find_block-at rest child more before after later hs

-- `configLookup` goes through the first block of each name in turn and returns what stands behind the
-- name in the first statement of the last block that has no block of its own and begins with it.
pub config_lookup-Finds :
    (field_name : Bytes) (config : NginxConfig) (names : List Bytes) (values : List Bytes)
    → Finds field_name config names values
    → config_lookup config names field_name ≡ values
unfolding config_lookup
config_lookup-Finds f config names values (field before after e h) =
    find_field-at f config values before after e h
config_lookup-Finds f config names values
      (into {child = child} {name = name} {names = ns} more before after e h found) =
    rw (find_block-at name config child more before after e h, config_lookup)
      (config_lookup-Finds f child ns values found)

-- With no block names, nothing is found if no statement without a block begins with the name.
pub config_lookup-none :
    (field_name : Bytes) (config : NginxConfig)
    → All (SkipsField field_name) (statements config)
    → config_lookup config [] field_name ≡ []
unfolding config_lookup find_field
config_lookup-none f nil h = refl
config_lookup-none f (statement ts c rest) (h, hs) =
    find_field-skip f ts c rest h ∙ config_lookup-none f rest hs

-- The port number is that of the first `port` field of the first `server` block, whatever else the
-- configuration holds, if it is one decimal number that fits an `int`.
pub get_port_number-Finds :
    (config : NginxConfig) (ds : Bytes)
    → Finds (codes "port") config (codes "server" ∷ []) (ds ∷ [])
    → IsDecimal ds
    → get_port_number config ≡ ok (pos (value_of 0 ds))
unfolding get_port_number
get_port_number-Finds config ds found d =
    rw (config_lookup-Finds (codes "port") config (codes "server" ∷ []) (ds ∷ []) found)
      (atoi-decimal ds d)
