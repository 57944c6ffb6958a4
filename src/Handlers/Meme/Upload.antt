-- ===== src/Handlers/Meme/Upload.antt =====
-- src/handlers/meme_handler.cc: what `generate_meme` takes from a request, up to the image that it
-- writes.
use aite_cs.Prelude.{
  ℕ, Bool, true, false, not, List, [], ◌∷◌, ◌++◌, Option, none, some, Bytes, codes, equal, ◌==◌,
  if◌then◌else◌,
}
use aite_cs.Handlers.Meme.Patterns.{search_boundary, from_dash, search_type, remove_spaces}
use aite_cs.Handlers.Multipart.{PartRead, lines_from, open_line, parse_part}
use aite_cs.Handlers.ReverseProxy.{find_split}
use aite_cs.Http.{Http, World}

-- A step is refused with the status and the message of an error page, or it throws.
pub data Stage {ℓ} (A : Type ℓ) : Type ℓ where
  accepted : A → Stage A
  refused : ℕ → Bytes → Stage A
  threw : Stage A

module _ {ℓ κ} {A : Type ℓ} {B : Type κ} where
  infixl 5 ◌>>=◌
  abbrev pub ◌>>=◌ : Stage A → (A → Stage B) → Stage B
  accepted a >>= next = next a
  refused status message >>= next = refused status message
  threw >>= next = threw

abbrev pub require : Bool → ℕ → Bytes → Stage Bool
require true status message = accepted true
require false status message = refused status message

unfoldable pub open_form : Bytes → List Bytes → Stage (List Bytes)
open_form boundary [] = refused 400 (codes "Invalid meme request: no boundary")
open_form boundary (line ∷ lines) =
    if equal line (open_line boundary)
    then accepted lines
    else refused 400 (codes "Invalid meme request: no boundary")

unfoldable pub next_part : Bytes → Bytes → List Bytes → Stage PartRead
next_part message boundary lines =
    let read = parse_part boundary lines in
    if read.reached then accepted read else refused 400 message

unfoldable pub close_form : List Bytes → Stage Bool
close_form [] = accepted true
close_form (_ ∷ _) = refused 400 (codes "Invalid meme request: too many fields")

-- The four parts of a form.
pub record Form : Type 0 where
  pub style : Bytes
  pub image_header : Bytes
  pub image : Bytes
  pub top : Bytes
  pub bottom : Bytes

unfoldable pub read_meme_form : Bytes → List Bytes → Stage Form
read_meme_form boundary lines = do
  behind ← open_form boundary lines
  style ← next_part (codes "Invalid meme request: error in template selection") boundary behind
  image ← next_part (codes "Invalid meme request: error in image") boundary style.rest
  top ← next_part (codes "Invalid meme request: error in top caption") boundary image.rest
  bottom ← next_part (codes "Invalid meme request: error in bottom caption") boundary top.rest
  closed ← close_form bottom.rest
  accepted (record {
    style = style.part.body;
    image_header = image.part.header;
    image = image.part.body;
    top = top.part.body;
    bottom = bottom.part.body;
  })

abbrev pub ends_slash : Bytes → Bool
ends_slash [] = true
ends_slash (c ∷ []) = c == b'/'
ends_slash (c ∷ cs) = ends_slash cs

-- `operator/=` of `std::filesystem::path`, by a name that does not start with a slash.
unfoldable pub add_name : Bytes → Bytes → Bytes
add_name root name = if ends_slash root then root ++ name else root ++ codes "/" ++ name

-- An upload: the captions, the style, the path of the image, and the images that have been written, with
-- their paths.
pub record Upload : Type 0 where
  pub top : Bytes
  pub bottom : Bytes
  pub style : Bytes
  pub path : Bytes
  pub images : List (Bytes × Bytes)

abbrev pub is_some {ℓ} : {A : Type ℓ} → Option A → Bool
is_some none = false
is_some (some _) = true

module _ (http : Http) (world : World http) where
  open http use {Request, is_post, body, find_field, print}
  open world use {trim, uuid, creates_folder, writes_file}

  -- The content type of a posted request.
  unfoldable pub upload_type : Request → Stage Bytes
  upload_type req =
      if not (is_post req)
      then refused 400 (codes "Invalid upload request")
      else elim (find_field req (codes "Content-Type")) [
        | none ↦ refused 400 (codes "Invalid upload request")
        | some content_type ↦ accepted content_type
      ]

  unfoldable pub form_boundary : Bytes → Stage Bytes
  form_boundary text = elim (search_boundary text) [
    | none ↦ refused 400 (codes "Invalid multipart form")
    | some found ↦ elim (from_dash (trim found)) [
      | none ↦ threw
      | some boundary ↦ accepted boundary
    ]
  ]

  -- What stands behind `image/` in the content type of the image.
  unfoldable pub image_type : Bytes → Stage Bytes
  image_type header =
      let content_type : Bytes = elim (search_type false header) [
        | none ↦ []
        | some found ↦ trim found
      ] in
      elim (find_split (codes "image/") content_type) [
        | none ↦ refused 400 (codes "Bad file type")
        | some (_, type) ↦ accepted type
      ]

  unfoldable pub image_path : Bytes → Bytes → Bytes
  image_path root type = add_name root (uuid ++ codes "." ++ type)

  -- `ofs << b_body`: nothing is written, and nothing said, where the file cannot be opened.
  unfoldable pub write_image : Bytes → Bytes → List (Bytes × Bytes)
  write_image path image = if writes_file path then (path, image) ∷ [] else []

  unfoldable pub read_upload : Bytes → Request → Stage Upload
  read_upload root req = do
    content_type ← upload_type req
    multipart ←
        require (is_some (find_split (codes "multipart/form-data") content_type)) 415
          (codes "Invalid upload content type")
    boundary ← form_boundary (print req)
    form ← read_meme_form boundary (lines_from [] (body req))
    type ← image_type form.image_header
    written ←
        require (creates_folder (image_path root type)) 500
          (codes "Could not write meme to configured filesystem")
    accepted (record {
      top = form.top;
      bottom = form.bottom;
      style = remove_spaces form.style;
      path = image_path root type;
      images = write_image (image_path root type) form.image;
    })
