-- ===== src/Tests/Memes.antt =====
-- The meme and status handlers: an upload, an upload with a style that does not exist, and the totals.
use aite_cs.Prelude.{
  ◌++◌, ℕ, Bool, not, ◌&&◌, true, List, [], ◌∷◌, none, some, Bytes, All, codes, equal, ◌==◌, pos,
  ok, err, overflow, ◌≡◌, ◌↔◌, refl, arith,
}
use aite_cs.Handlers.{meme}
use aite_cs.Handlers.Dispatch.{handle_request}
use aite_cs.Handlers.Kept.{Keeps, handle_request-Keeps}
use aite_cs.Handlers.Meme.Actions.{
  Handled, answer, image_url, selections_of, generate_meme, handle_meme, html_page, log_and_show,
  browse_memes, browse_page, style_page,
}
use aite_cs.Handlers.Meme.Gallery.{HasStyle, gallery-HasStyle, log_memes, log_and_show-browse_memes}
use aite_cs.Handlers.Meme.Patterns.{
  search_boundary, boundary_at, run, past, from_dash, search_type, remove_spaces,
}
use aite_cs.Handlers.Meme.Styles.{
  style_sheet, TemplateStyle, template_style, chosen_style, gallery, gallery_round,
}
use aite_cs.Handlers.Meme.Upload.{Upload, form_boundary, image_type, image_path}
use aite_cs.Handlers.Meme.Page.{IsMemePage}
use aite_cs.Handlers.Meme.Uploaded.{
  NoNewline, Fields, IsUpload, form_lines, upload_of, generate_meme-fields,
}
use aite_cs.Handlers.Multipart.{is_boundary}
use aite_cs.Handlers.Multipart.RoundTrip.{Field, unlines}
use aite_cs.Handlers.ReverseProxy.{find_split}
use aite_cs.Handlers.Status.{Rows, status_body, handle_status}
use aite_cs.Handlers.Status.Totals.{handle_status-log_requests, handle_status-unknown}
use aite_cs.Server.Metrics.{log_meme, log_request, log_requests}
use aite_cs.Server.State.{Server, empty_server}
use aite_cs.Standard.Ints.{stoi}
use aite_cs.Standard.Map.{find, assign, less_bytes, bytes_key}
use aite_cs.Utils.ErrorPage.{page, show_error_page}
use aite_cs.Tests.Messages.{Letter, plain, quiet}
use aite_cs.Tests.Posix.{posix}

abbrev bound : Bytes
bound = codes "----aaaaaaaaaa"

abbrev caption_of : Bytes → Field
caption_of line = record { first = codes "H\r"; more = []; body = line ∷ [] }

abbrev meme_fields : Fields
meme_fields = record {
  style = caption_of (codes "1\r");
  image = record {
    first = codes "H\r";
    more = codes "Content-Type: image/png\r" ∷ [];
    body = codes "x\r" ∷ [];
  };
  top = caption_of (codes "t\r");
  bottom = caption_of (codes "b\r");
}

abbrev upload_request : Letter
upload_request = record {
  post = true;
  address = codes "/meme/generate";
  fields = (codes "Content-Type", codes "multipart/form-data; boundary=----aaaaaaaaaa") ∷ [];
  text = unlines (form_lines bound meme_fields);
}

abbrev plain_line : Bytes → Bool
plain_line [] = true
plain_line (c ∷ cs) = not (c == b'\n') && plain_line cs

abbrev plain_lines : List Bytes → Bool
plain_lines [] = true
plain_lines (line ∷ lines) = plain_line line && plain_lines lines

line_plain : (cs : Bytes) → plain_line cs ≡ true → NoNewline cs
line_plain [] h = tt
line_plain (c ∷ cs) h = (ground arith, line_plain cs (ground arith))

lines_plain : (lines : List Bytes) → plain_lines lines ≡ true → All NoNewline lines
lines_plain [] h = tt
lines_plain (line ∷ lines) h = (line_plain line (ground arith), lines_plain lines (ground arith))

upload_request-IsUpload :
    IsUpload plain quiet
      (codes "imgs")
      upload_request
      bound
      (codes "multipart/form-data; boundary=----aaaaaaaaaa")
      (codes "png")
      meme_fields
unfolding find equal find_split form_boundary search_boundary boundary_at run past from_dash
    is_boundary image_type search_type
upload_request-IsUpload = record {
  posted = refl;
  has_type = refl;
  multipart = refl;
  bounded = refl;
  fields = (
    record { first_line = (refl, (λ e. cc), refl); more_lines = tt; body_lines = (refl, tt) },
    record {
      first_line = (refl, (λ e. cc), refl);
      more_lines = ((refl, (λ e. cc), refl), tt);
      body_lines = (refl, tt);
    },
    record { first_line = (refl, (λ e. cc), refl); more_lines = tt; body_lines = (refl, tt) },
    record { first_line = (refl, (λ e. cc), refl); more_lines = tt; body_lines = (refl, tt) },
  );
  lines = lines_plain (form_lines bound meme_fields) refl;
  written = refl;
  of_image = refl;
  created = refl;
}

one_style : stoi (remove_spaces (codes "1\r\n")) ≡ some (pos 1)
unfolding remove_spaces stoi
one_style = refl

no_image :
    find empty_server.memes_
      (image_url (upload_of plain quiet (codes "imgs") (codes "png") meme_fields))
    ≡ none
unfolding find
no_image = refl

generate_meme-fields_example :
    (handled : Handled plain) × (style : TemplateStyle) × (generate_meme plain quiet
        (codes "imgs")
        empty_server
        upload_request
      ≡ ok handled)
    × (template_style (pos 1) ≡ some style)
    × ((content : Bytes) × (handled.response ≡ html_page plain content)
        × IsMemePage content
            (unlines meme_fields.top.body)
            (unlines meme_fields.bottom.body)
            (codes "." ++ image_path plain quiet (codes "imgs") (codes "png"))
            (style_sheet style))
    × (handled.images ≡ (image_path plain quiet (codes "imgs") (codes "png"), codes "x\r\n") ∷ [])
    × (find handled.server.memes_
          (image_url (upload_of plain quiet (codes "imgs") (codes "png") meme_fields))
        ≡ some (selections_of (upload_of plain quiet (codes "imgs") (codes "png") meme_fields)))
generate_meme-fields_example =
    generate_meme-fields plain quiet (codes "imgs") empty_server upload_request bound
      (codes "multipart/form-data; boundary=----aaaaaaaaaa") (codes "png") meme_fields 1
      upload_request-IsUpload one_style (omega arith, omega arith) no_image

gallery-HasStyle_example :
    ((entries : Bytes) × (gallery ((codes "u", codes "t" ∷ codes "b" ∷ codes "4" ∷ []) ∷ [])
        ≡ ok (some entries)))
    ↔ All HasStyle ((codes "u", codes "t" ∷ codes "b" ∷ codes "4" ∷ []) ∷ [])
gallery-HasStyle_example =
    gallery-HasStyle ((codes "u", codes "t" ∷ codes "b" ∷ codes "4" ∷ []) ∷ [])

abbrev odd_upload : Upload
odd_upload = record {
  top = codes "t";
  bottom = codes "b";
  style = codes "4";
  path = codes "p";
  images = (codes "p", codes "x") ∷ [];
}

abbrev odd_server : Server
odd_server = record empty_server {
  memes_ = (codes ".p", codes "t" ∷ codes "b" ∷ codes "4" ∷ []) ∷ [];
}

abbrev odd_page : plain.Response
odd_page = show_error_page plain 400 (codes "Invalid meme request")

abbrev odd_handled : Handled plain
odd_handled = record {
  response = odd_page;
  server = odd_server;
  images = (codes "p", codes "x") ∷ [];
}

four_style : stoi (codes "4") ≡ some (pos 4)
unfolding stoi
four_style = refl

not_logged : find empty_server.memes_ (image_url odd_upload) ≡ none
unfolding find
not_logged = refl

odd_logged : log_and_show plain empty_server odd_upload ≡ ok odd_handled
unfolding log_and_show chosen_style stoi template_style style_page log_meme image_url find assign
    equal
odd_logged = refl

odd_browsed : browse_memes plain (log_memes odd_server []) ≡ ok (answer plain odd_server odd_page)
unfolding browse_memes gallery gallery_round chosen_style stoi template_style browse_page
odd_browsed = refl

log_and_show-browse_memes_example :
    (odd_page ≡ show_error_page plain 400 (codes "Invalid meme request"))
    × (odd_page ≡ show_error_page plain 400 (codes "Invalid meme request"))
log_and_show-browse_memes_example =
    log_and_show-browse_memes plain empty_server odd_upload (pos 4) [] four_style
      (λ n e l. let same : ◌≡◌ {A = ℕ} 4 n = cc in omega arith) not_logged odd_logged odd_browsed

abbrev two_requests : List (Bytes × ℕ)
two_requests = (codes "/a", 200) ∷ (codes "/b", 404) ∷ []

abbrev two_server : Server
two_server = record empty_server {
  requests_ = ((codes "/a", 200), 1) ∷ ((codes "/b", 404), 1) ∷ [];
}

two_logged : log_requests empty_server two_requests ≡ ok two_server
unfolding log_requests log_request find assign equal less_bytes
two_logged = refl

handle_status-log_requests_example :
    (rows : Rows) × (handle_status plain (some two_server) upload_request
      ≡ ok (page plain 200 (codes "text/html") (status_body plain two_server rows)))
    × (rows.total ≡ 2)
handle_status-log_requests_example =
    handle_status-log_requests plain two_requests empty_server upload_request refl
      ((λ e. omega (arith, e)), ((λ e. omega (arith, e)), tt)) (omega arith) two_logged

abbrev odd_status : Server
odd_status = record empty_server { requests_ = ((codes "/p", 0), 1) ∷ [] }

odd_status_logged : log_requests empty_server ((codes "/p", 0) ∷ []) ≡ ok odd_status
unfolding log_requests log_request find assign equal less_bytes
odd_status_logged = refl

handle_status-unknown_example : handle_status plain (some odd_status) upload_request ≡ err overflow
handle_status-unknown_example =
    handle_status-unknown plain (codes "/p") [] empty_server upload_request odd_status_logged

abbrev browse_request : Letter
browse_request = record { post = true; address = codes "/meme/browse"; fields = []; text = [] }

browse_handled :
    handle_request plain posix quiet odd_server (meme (codes "imgs")) browse_request
    ≡ ok (answer plain odd_server odd_page)
unfolding handle_request handle_meme equal browse_memes gallery gallery_round chosen_style stoi
    template_style browse_page
browse_handled = refl

handle_request-Keeps_example : Keeps odd_server odd_server
handle_request-Keeps_example =
    handle_request-Keeps plain posix quiet odd_server (meme (codes "imgs")) browse_request
      browse_handled
