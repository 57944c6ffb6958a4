-- ===== src/Handlers/Meme/Uploaded.antt =====
-- A meme that is uploaded as a form of four parts.
use aite_cs.Prelude.{
  if◌then◌else◌, ℕ, true, false, List, [], ◌∷◌, ◌++◌, none, some, Bytes, All, codes, equal_refl,
  ◌==◌, pos, ok, ◌≡◌, refl, ap, ◌∙◌, append_assoc, append-nil,
}
use aite_cs.Handlers.Meme.Actions.{
  Handled, image_url, selections_of, style_page, log_and_show, answer_upload, generate_meme,
  html_page, generated_body,
}
use aite_cs.Handlers.Meme.Gallery.{IsStyle, template_style-IsStyle, log_meme-new}
use aite_cs.Handlers.Meme.Page.{IsMemePage, generated_body-IsMemePage}
use aite_cs.Handlers.Meme.Patterns.{remove_spaces}
use aite_cs.Handlers.Meme.Styles.{TemplateStyle, style_sheet, template_style, chosen_style}
use aite_cs.Handlers.Meme.Upload.{
  accepted, Upload, is_some, open_form, next_part, close_form, read_meme_form, upload_type,
  form_boundary, image_type, image_path, write_image, read_upload,
}
use aite_cs.Handlers.Multipart.{lines_from, open_line, close_line, is_boundary}
use aite_cs.Handlers.Multipart.RoundTrip.{
  Field, IsField, unlines, part_of, field_lines, fields_lines, parse_part-field, open-boundary,
  close-boundary,
}
use aite_cs.Handlers.ReverseProxy.{find_split}
use aite_cs.Http.{Http, World}
use aite_cs.Server.Metrics.{log_meme}
use aite_cs.Server.State.{Server}
use aite_cs.Standard.Ints.{stoi}
use aite_cs.Standard.Map.{find, bytes_key}

abbrev pub NoNewline : Bytes → Type 0
NoNewline = All (λ c. (c == b'\n') ≡ false)

lines_from-line :
    (taken line more : Bytes)
    → NoNewline line
    → lines_from taken (line ++ b'\n' ∷ more) ≡ (taken ++ line) ∷ lines_from [] more
lines_from-line [] [] more _ = refl
lines_from-line (t ∷ taken) [] more _ = rw append-nil refl
lines_from-line [] (c ∷ line) more (h, hs) = rw h (lines_from-line (c ∷ []) line more hs)
lines_from-line (t ∷ taken) (c ∷ line) more (h, hs) =
    rw h (lines_from-line (t ∷ taken ++ c ∷ []) line more hs ∙ simp append_assoc)

lines_from-unlines :
    (lines : List Bytes) → All NoNewline lines → lines_from [] (unlines lines) ≡ lines
lines_from-unlines [] _ = refl
lines_from-unlines (line ∷ lines) (h, hs) =
    lines_from-line [] line (unlines lines) h ∙ ap (◌∷◌ line) (lines_from-unlines lines hs)

-- The four fields of a form, in order.
pub record Fields : Type 0 where
  pub style : Field
  pub image : Field
  pub top : Field
  pub bottom : Field

abbrev pub form_lines : Bytes → Fields → List Bytes
form_lines boundary f =
    open_line boundary ∷ fields_lines boundary (f.style ∷ f.image ∷ f.top ∷ f.bottom ∷ []) []

abbrev pub AreFields : Bytes → Fields → Type 0
AreFields boundary f =
    IsField boundary f.style
    × IsField boundary f.image
    × IsField boundary f.top
    × IsField boundary f.bottom

next_part-field :
    (message boundary : Bytes) (f : Field) (stop : Bytes) (rest : List Bytes)
    → IsField boundary f
    → is_boundary boundary stop ≡ true
    → next_part message boundary (field_lines f (stop ∷ rest))
      ≡ accepted (record { reached = true; part = part_of f; rest = rest })
unfolding next_part
next_part-field message boundary f stop rest wf s =
    rw (next_part, parse_part-field boundary f stop rest wf s) refl

-- The checks of a form accept the four fields.
read_meme_form-fields :
    (boundary : Bytes) (f : Fields)
    → AreFields boundary f
    → read_meme_form boundary (form_lines boundary f)
      ≡ accepted (record {
        style = unlines f.style.body;
        image_header = unlines (f.image.first ∷ f.image.more);
        image = unlines f.image.body;
        top = unlines f.top.body;
        bottom = unlines f.bottom.body;
      })
unfolding read_meme_form open_form close_form
read_meme_form-fields boundary f (s, i, t, b) =
    rw
      (
        equal_refl (open_line boundary),
        next_part-field (codes "Invalid meme request: error in template selection") boundary f.style
            (open_line boundary) (fields_lines boundary (f.image ∷ f.top ∷ f.bottom ∷ []) []) s
            (open-boundary boundary),
        next_part-field (codes "Invalid meme request: error in image") boundary f.image
            (open_line boundary) (fields_lines boundary (f.top ∷ f.bottom ∷ []) []) i
            (open-boundary boundary),
        next_part-field (codes "Invalid meme request: error in top caption") boundary f.top
            (open_line boundary) (fields_lines boundary (f.bottom ∷ []) []) t
            (open-boundary boundary),
        next_part-field (codes "Invalid meme request: error in bottom caption") boundary f.bottom
            (close_line boundary) [] b (close-boundary boundary),
      )
      refl

module _ (http : Http) (world : World http) (root : Bytes) where
  open http use {Request, is_post, body, find_field, print}

  -- A posted request with the fields as its body, for an image of a type whose folder can be created.
  pub record IsUpload (req : Request) (boundary content_type type : Bytes) (f : Fields)
      : Type 0 where
    pub posted : is_post req ≡ true
    pub has_type : find_field req (codes "Content-Type") ≡ some content_type
    pub multipart : is_some (find_split (codes "multipart/form-data") content_type) ≡ true
    pub bounded : form_boundary http world (print req) ≡ accepted boundary
    pub fields : AreFields boundary f
    pub lines : All NoNewline (form_lines boundary f)
    pub written : body req ≡ unlines (form_lines boundary f)
    pub of_image : image_type http world (unlines (f.image.first ∷ f.image.more)) ≡ accepted type
    pub created : world.creates_folder (image_path http world root type) ≡ true

  abbrev pub upload_of : Bytes → Fields → Upload
  upload_of type f = record {
    top = unlines f.top.body;
    bottom = unlines f.bottom.body;
    style = remove_spaces (unlines f.style.body);
    path = image_path http world root type;
    images = write_image http world (image_path http world root type) (unlines f.image.body);
  }

  read_upload-fields :
      (req : Request) (boundary content_type type : Bytes) (f : Fields)
      → IsUpload req boundary content_type type f
      → read_upload http world root req ≡ accepted (upload_of type f)
  unfolding read_upload upload_type
  read_upload-fields req boundary content_type type f u =
      rw
        (
          u.posted,
          u.has_type,
          u.multipart,
          u.bounded,
          u.written,
          lines_from-unlines (form_lines boundary f) u.lines,
          read_meme_form-fields boundary f u.fields,
          u.of_image,
          u.created,
        )
        refl

  -- An upload of four fields with the number of a style, for an image that is not logged yet, is answered
  -- with a page that has its captions in their places, its image and the sheet of its style. The image is written
  -- under the UUID and the end of its content type, or nothing is where that file cannot be opened, and the meme is logged in
  -- both cases, with its captions and its style.
  pub generate_meme-fields :
      (server : Server) (req : Request) (boundary content_type type : Bytes) (f : Fields) (n : ℕ)
      → IsUpload req boundary content_type type f
      → stoi (remove_spaces (unlines f.style.body)) ≡ some (pos n)
      → IsStyle n
      → find server.memes_ (image_url (upload_of type f)) ≡ none
      → (handled : Handled http) × (style : TemplateStyle) × (generate_meme http world root server
            req
          ≡ ok handled)
        × (template_style (pos n) ≡ some style)
        × ((content : Bytes) × (handled.response ≡ html_page http content)
            × IsMemePage content
                (unlines f.top.body)
                (unlines f.bottom.body)
                (codes "." ++ image_path http world root type)
                (style_sheet style))
        × (handled.images ≡ (
            if world.writes_file (image_path http world root type)
            then (image_path http world root type, unlines f.image.body) ∷ []
            else []))
        × (find handled.server.memes_ (image_url (upload_of type f))
            ≡ some (selections_of (upload_of type f)))
  unfolding write_image generate_meme answer_upload log_and_show chosen_style style_page
  generate_meme-fields server req boundary content_type type f n u number is new =
      let upload = upload_of type f in
      let (style, there) = template_style-IsStyle n is in
      let handled : Handled http = record {
        response = html_page http (generated_body upload style);
        server = log_meme server (image_url upload) (selections_of upload);
        images = upload.images;
      } in
      (
        handled,
        style,
        rw (read_upload-fields req boundary content_type type f u, number, there) refl,
        there,
        (generated_body upload style, refl, generated_body-IsMemePage upload style),
        refl,
        log_meme-new server (image_url upload) (selections_of upload) new,
      )
