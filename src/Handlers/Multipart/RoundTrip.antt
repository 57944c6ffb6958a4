-- ===== src/Handlers/Multipart/RoundTrip.antt =====
-- A form that is written as four parts is read as them.
use aite_cs.Prelude.{
  Bool, true, false, List, [], ◌∷◌, ◌++◌, Bytes, All, codes, equal, equal_iff, equal_refl, ◌≡◌, ◌≢◌,
  refl, ◌∙◌, arith, append_assoc, append-nil, Bool-cases, inl, inr,
}
use aite_cs.Handlers.Multipart.{
  open_line, close_line, is_boundary, reading_header, reading_body, Part, ends_cr, add_header,
  add_body, read_part, empty_part, parse_part,
}

-- A part as it is written: its first header line, the other ones, and the lines of its body.
pub record Field : Type 0 where
  pub first : Bytes
  pub more : List Bytes
  pub body : List Bytes

abbrev pub IsHeaderLine : Bytes → Bytes → Type 0
IsHeaderLine boundary line =
    (is_boundary boundary line ≡ false) × (line ≢ codes "\r") × (ends_cr line ≡ true)

pub record IsField (boundary : Bytes) (f : Field) : Type 0 where
  pub first_line : IsHeaderLine boundary f.first
  pub more_lines : All (IsHeaderLine boundary) f.more
  pub body_lines : All (λ line. is_boundary boundary line ≡ false) f.body

-- Lines with the newlines that end them.
abbrev pub unlines : List Bytes → Bytes
unlines [] = []
unlines (line ∷ lines) = line ++ (b'\n' ∷ unlines lines)

abbrev pub part_of : Field → Part
part_of f = record { header = unlines (f.first ∷ f.more); body = unlines f.body }

-- The lines of a field in front of the boundary line that ends it.
abbrev pub field_lines : Field → List Bytes → List Bytes
field_lines f after = f.first ∷ (f.more ++ (codes "\r" ∷ (f.body ++ after)))

-- The lines of the fields, each but the last in front of an opening boundary, the last in front of a closing one.
abbrev pub fields_lines : Bytes → List Field → List Bytes → List Bytes
fields_lines boundary [] rest = rest
fields_lines boundary (f ∷ []) rest = field_lines f (close_line boundary ∷ rest)
fields_lines boundary (f ∷ fs) rest =
    field_lines f (open_line boundary ∷ fields_lines boundary fs rest)

module _ (boundary : Bytes) where
  read_body :
      (body : List Bytes) (crlf : Bool) (part : Part) (stop : Bytes) (rest : List Bytes)
      → All (λ line. is_boundary boundary line ≡ false) body
      → is_boundary boundary stop ≡ true
      → read_part boundary reading_body crlf part (body ++ stop ∷ rest) ≡ record {
        reached = true;
        part = record part { body = part.body ++ unlines body };
        rest = rest;
      }
  unfolding read_part
  read_body [] crlf part stop rest _ s = rw (s, append-nil) refl
  read_body (line ∷ body) crlf part stop rest (h, hs) s =
      rw h (read_body body (ends_cr line) (add_body part line) stop rest hs s ∙ simp append_assoc)

  blank_line : is_boundary boundary (codes "\r") ≡ false
  unfolding is_boundary equal
  blank_line = refl

  not_blank : (line : Bytes) → line ≢ codes "\r" → equal line (codes "\r") ≡ false
  not_blank line ne = elim (Bool-cases (equal line (codes "\r"))) [
    | inl same ↦ absurd (ne ((equal_iff line (codes "\r")).0 same))
    | inr other ↦ other
  ]

  read_headers :
      (more : List Bytes) (part : Part) (after : List Bytes)
      → All (IsHeaderLine boundary) more
      → read_part boundary reading_header true part (more ++ codes "\r" ∷ after)
        ≡ read_part boundary reading_body true
            (record part { header = part.header ++ unlines more })
            after
  unfolding read_part
  read_headers [] part after _ = rw (blank_line, equal_refl (codes "\r"), append-nil) refl
  read_headers (line ∷ more) part after ((b, ne, cr), hs) =
      rw (b, not_blank line ne, cr)
        (read_headers more (add_header part line) after hs ∙ simp append_assoc)

  pub parse_part-field :
      (f : Field) (stop : Bytes) (rest : List Bytes)
      → IsField boundary f
      → is_boundary boundary stop ≡ true
      → parse_part boundary (field_lines f (stop ∷ rest))
        ≡ record { reached = true; part = part_of f; rest = rest }
  unfolding parse_part
  parse_part-field f stop rest wf s =
      let (b, ne, cr) = wf.first_line in
      let head : parse_part boundary (field_lines f (stop ∷ rest))
          ≡ read_part boundary reading_header true (add_header empty_part f.first)
              (f.more ++ codes "\r" ∷ (f.body ++ stop ∷ rest)) =
        unfold read_part in rw (b, not_blank f.first ne, cr) refl in
      head
      ∙ read_headers f.more (add_header empty_part f.first) (f.body ++ stop ∷ rest) wf.more_lines
      ∙ read_body f.body true _ stop rest wf.body_lines s
      ∙ simp append_assoc

  pub open-boundary : is_boundary boundary (open_line boundary) ≡ true
  unfolding is_boundary
  open-boundary = rw (equal_refl (open_line boundary)) (ground arith)

  pub close-boundary : is_boundary boundary (close_line boundary) ≡ true
  unfolding is_boundary
  close-boundary = rw (equal_refl (close_line boundary)) refl
