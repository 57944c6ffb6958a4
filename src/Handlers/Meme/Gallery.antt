-- ===== src/Handlers/Meme/Gallery.antt =====
-- When the page of all memes can be shown, and the upload after which it never is.
use aite_cs.Prelude.{
  ℕ, ◌≤◌, true, List, [], ◌∷◌, ◌++◌, Option, none, some, Bytes, All, codes, ◌==◌, ℤ, pos, negsuc,
  ok, bind-eq-ok, Bool-cases, Option-cases, inl, inr, ◌≡◌, ◌≢◌, ◌↔◌, refl, ap, ◌∙◌, subst, arith,
}
use aite_cs.Handlers.Meme.Actions.{
  Handled, image_url, selections_of, style_page, log_and_show, browse_page, browse_memes,
}
use aite_cs.Handlers.Meme.Styles.{
  TemplateStyle, white_font, black_background, black_font, template_style, chosen_style, meme_entry,
  gallery_round, gallery,
}
use aite_cs.Handlers.Meme.Upload.{Upload}
use aite_cs.Http.{Http}
use aite_cs.Server.Metrics.{log_meme, log_meme-first}
use aite_cs.Server.State.{Server}
use aite_cs.Server.Tables.{find-All}
use aite_cs.Standard.Ints.{stoi}
use aite_cs.Standard.Map.{Map, find, find-assign_self, bytes_key}
use aite_cs.Utils.ErrorPage.{show_error_page}

-- The number of a style.
abbrev pub IsStyle : ℕ → Type 0
IsStyle n = (1 ≤ n) × (n ≤ 3)

-- A logged meme with two captions and the number of a style.
abbrev pub HasStyle : Bytes × List Bytes → Type 0
HasStyle meme =
    (top : Bytes) × (bottom : Bytes) × (style : Bytes) × (rest : List Bytes) × (n : ℕ) × (meme.1
      ≡ top ∷ bottom ∷ style ∷ rest)
    × (stoi style ≡ some (pos n))
    × IsStyle n

template_style-negsuc : (n : ℕ) → template_style (negsuc n) ≡ none
unfolding template_style
template_style-negsuc n = refl

pub template_style-IsStyle :
    (n : ℕ) → IsStyle n → (s : TemplateStyle) × (template_style (pos n) ≡ some s)
unfolding template_style
template_style-IsStyle n (low, high) = elim (Bool-cases (n == 1)) [
  | inl one ↦ (white_font, rw one refl)
  | inr a ↦ elim (Bool-cases (n == 2)) [
    | inl two ↦ (black_background, rw (a, two) refl)
    | inr b ↦ let three : (n == 3) ≡ true = ground arith in (black_font, rw (a, b, three) refl)
  ]
]

IsStyle-template_style : (n : ℕ) (s : TemplateStyle) → template_style (pos n) ≡ some s → IsStyle n
unfolding template_style
IsStyle-template_style n s e = elim (Bool-cases (n == 1)) [
  | inl one ↦ ground arith
  | inr a ↦ elim (Bool-cases (n == 2)) [
    | inl two ↦ ground arith
    | inr b ↦ elim (Bool-cases (n == 3)) [
      | inl three ↦ ground arith
      | inr c ↦ absurd (cc (rw (a, b, c) at e))
    ]
  ]
]

gallery_round-HasStyle :
    (url : Bytes) (selections : List Bytes)
    → HasStyle (url, selections)
    → (html : Bytes) × (gallery_round url selections ≡ ok (some html))
unfolding gallery_round chosen_style
gallery_round-HasStyle url selections (top, bottom, style, rest, n, e, number, is) =
    let (s, there) = template_style-IsStyle n is in
    (meme_entry url top bottom s, rw (e, number, there) refl)

HasStyle-gallery_round :
    (url : Bytes) (selections : List Bytes) (html : Bytes)
    → gallery_round url selections ≡ ok (some html)
    → HasStyle (url, selections)
unfolding gallery_round chosen_style
HasStyle-gallery_round url [] html e = absurd (cc)
HasStyle-gallery_round url (_ ∷ []) html e = absurd (cc)
HasStyle-gallery_round url (_ ∷ _ ∷ []) html e = absurd (cc)
HasStyle-gallery_round url (top ∷ bottom ∷ style ∷ rest) html e = go (stoi style) refl
  where
    go : (z : Option ℤ) → stoi style ≡ z → HasStyle (url, top ∷ bottom ∷ style ∷ rest)
    go none z = let bad = rw z at e in absurd (cc)
    go (some (negsuc n)) z = let bad = rw (z, template_style-negsuc n) at e in absurd (cc)
    go (some (pos n)) z = elim (Option-cases (template_style (pos n))) [
      | inl no_style ↦ let bad = rw (z, no_style) at e in absurd (cc)
      | inr (s, there) ↦ (top, bottom, style, rest, n, refl, z, IsStyle-template_style n s there)
    ]

gallery_sound :
    (memes : Map Bytes (List Bytes)) (entries : Bytes)
    → gallery memes ≡ ok (some entries)
    → All HasStyle memes
unfolding gallery
gallery_sound [] entries e = tt
gallery_sound ((url, selections) ∷ memes) entries e =
    let (entry, round, e1) = bind-eq-ok (gallery_round url selections) _ e in
    elim (Option-cases entry) [
      | inl refused ↦ let bad = rw refused at e1 in absurd (cc)
      | inr (html, shown) ↦
          let (later, loop, e2) = bind-eq-ok (gallery memes) _ (rw shown at e1) in
          elim (Option-cases later) [
            | inl refused ↦ let bad = rw refused at e2 in absurd (cc)
            | inr (more, rest) ↦ (
              HasStyle-gallery_round url selections html (round ∙ ap ok shown),
              gallery_sound memes more (loop ∙ ap ok rest),
            )
          ]
    ]

gallery_complete :
    (memes : Map Bytes (List Bytes))
    → All HasStyle memes
    → (entries : Bytes) × (gallery memes ≡ ok (some entries))
unfolding gallery
gallery_complete [] _ = ([], refl)
gallery_complete ((url, selections) ∷ memes) (h, hs) =
    let (html, round) = gallery_round-HasStyle url selections h in
    let (more, loop) = gallery_complete memes hs in (html ++ more, rw (round, loop) refl)

-- The loop over the memes gets to its end exactly when every meme has two captions and the number of a
-- style, from 1 to 3.
pub gallery-HasStyle :
    (memes : Map Bytes (List Bytes))
    → ((entries : Bytes) × (gallery memes ≡ ok (some entries))) ↔ All HasStyle memes
gallery-HasStyle memes = (λ h. gallery_sound memes h.0 h.1, gallery_complete memes)

-- The memes that are logged later.
abbrev pub log_memes : Server → List (Bytes × List Bytes) → Server
log_memes server [] = server
log_memes server ((url, selections) ∷ more) = log_memes (log_meme server url selections) more

log_memes-first :
    (more : List (Bytes × List Bytes)) (server : Server) (url : Bytes) (selections : List Bytes)
    → find server.memes_ url ≡ some selections
    → find (log_memes server more).memes_ url ≡ some selections
log_memes-first [] server url selections e = e
log_memes-first ((other, later) ∷ more) server url selections e =
    log_memes-first more (log_meme server other later) url selections
      (log_meme-first server url other selections later e)

pub log_meme-new :
    (server : Server) (url : Bytes) (selections : List Bytes)
    → find server.memes_ url ≡ none
    → find (log_meme server url selections).memes_ url ≡ some selections
unfolding log_meme
log_meme-new server url selections e =
    rw (log_meme, e) (find-assign_self server.memes_ url selections)

not_shown :
    (memes : Map Bytes (List Bytes)) (url top bottom style : Bytes) (z : ℤ) (entries : Bytes)
    → find memes url ≡ some (top ∷ bottom ∷ style ∷ [])
    → stoi style ≡ some z
    → ((n : ℕ) → z ≡ pos n → ¬ IsStyle n)
    → gallery memes ≢ ok (some entries)
not_shown memes url top bottom style z entries there number bad shown =
    let (t, b, s, r, n, same, is, fits) =
      find-All HasStyle memes url (gallery_sound memes entries shown) there in
    let same_style : style ≡ s = cc in let same_number : z ≡ pos n = cc in bad n same_number fits

module _ (http : Http) where
  browse_memes-refused :
      (server : Server) {handled : Handled http}
      → ((entries : Bytes) → gallery server.memes_ ≢ ok (some entries))
      → browse_memes http server ≡ ok handled
      → handled.response ≡ show_error_page http 400 (codes "Invalid meme request")
  unfolding browse_memes browse_page
  browse_memes-refused server {handled} never e =
      let (entries, loop, e1) = bind-eq-ok (gallery server.memes_) _ e in
      elim (Option-cases entries) [
        | inl refused ↦ let there = rw refused at e1 in cc
        | inr (html, shown) ↦ absurd (never html (loop ∙ ap ok shown))
      ]

  -- An upload with a number that is no style is refused with an error page, but it has been logged: from then
  -- on, whatever is logged later, the page of all memes is refused as well, whenever it is answered at all.
  pub log_and_show-browse_memes :
      (server : Server) (upload : Upload) (z : ℤ) (later : List (Bytes × List Bytes))
      {handled shown : Handled http}
      → stoi upload.style ≡ some z
      → ((n : ℕ) → z ≡ pos n → ¬ IsStyle n)
      → find server.memes_ (image_url upload) ≡ none
      → log_and_show http server upload ≡ ok handled
      → browse_memes http (log_memes handled.server later) ≡ ok shown
      → (handled.response ≡ show_error_page http 400 (codes "Invalid meme request"))
        × (shown.response ≡ show_error_page http 400 (codes "Invalid meme request"))
  unfolding log_and_show chosen_style style_page
  log_and_show-browse_memes server upload z later {handled} {shown} number bad new e browsed =
      let logged = log_meme server (image_url upload) (selections_of upload) in
      let e1 = rw number at e in
      let same : logged ≡ handled.server = cc in
      let first = log_meme-new server (image_url upload) (selections_of upload) new in
      let there = log_memes-first later handled.server (image_url upload) (selections_of upload) (
        subst (λ (s : Server). find s.memes_ (image_url upload) ≡ some (selections_of upload)) same
          first) in
      (
        (elim (Option-cases (template_style z)) [
          | inl no_style ↦ let page = rw no_style at e1 in cc
          | inr (s, style) ↦ absurd (no_number z s style bad)
        ]),
        browse_memes-refused (log_memes handled.server later)
            (λ entries.
              not_shown (log_memes handled.server later).memes_ (image_url upload) upload.top
                upload.bottom upload.style z entries there number bad)
            browsed,
      )
    where
      no_number :
          (w : ℤ) (s : TemplateStyle)
          → template_style w ≡ some s
          → ((n : ℕ) → w ≡ pos n → ¬ IsStyle n)
          → ⊥
      no_number (pos n) s e bad = bad n refl (IsStyle-template_style n s e)
      no_number (negsuc n) s e bad = let none_there = template_style-negsuc n in cc
