-- ===== src/Handlers/Meme/Styles.antt =====
-- src/handlers/meme_handler.cc: the style of a meme, and the page that shows all of them.
use aite_cs.Prelude.{
  or_uncaught, [], ◌∷◌, List, ◌++◌, Option, none, some, Bytes, codes, ◌==◌, if◌then◌else◌, ℤ, pos,
  negsuc, Result, ok, err, ◌>>=◌, empty_container,
}
use aite_cs.Handlers.Meme.Html.{browse_head}
use aite_cs.Standard.Ints.{stoi}
use aite_cs.Standard.Map.{Map}

pub data TemplateStyle : Type 0 where
  white_font black_background black_font : TemplateStyle

-- The `switch`; `none` is the default.
unfoldable pub template_style : ℤ → Option TemplateStyle
template_style (negsuc n) = none
template_style (pos n) =
    if n == 1
    then some white_font
    else if n == 2
    then some black_background
    else if n == 3
    then some black_font
    else none

unfoldable pub chosen_style : Bytes → Result (Option TemplateStyle)
chosen_style text = do number ← or_uncaught (stoi text); ok (template_style number)

-- What the page of a new meme adds to its style sheet.
unfoldable pub style_sheet : TemplateStyle → Bytes
style_sheet white_font = []
style_sheet black_background = codes ".captions{background-color:black}"
style_sheet black_font = codes ".captions{color:black; -webkit-text-stroke: 1px white}"

-- The style of the captions on the page of all memes.
unfoldable pub caption_style : TemplateStyle → Bytes
caption_style white_font = codes "color:white; -webkit-text-stroke: 1px black"
caption_style black_background = codes "background-color:black"
caption_style black_font = codes "color:black; -webkit-text-stroke: 1px white"

unfoldable pub meme_entry : Bytes → Bytes → Bytes → TemplateStyle → Bytes
meme_entry url top bottom style =
    codes "<div class=template style=\"background-image:url('"
    ++ url
    ++ codes "')\"><div class='top-text captions' style='"
    ++ caption_style style
    ++ codes "'>"
    ++ top
    ++ codes "</div><div class='bottom-text captions' style='"
    ++ caption_style style
    ++ codes "'>"
    ++ bottom
    ++ codes "</div></div>"

-- One round of the loop; `none` is the return of an error page. The selections are the captions and the style.
unfoldable pub gallery_round : Bytes → List Bytes → Result (Option Bytes)
gallery_round url (top ∷ bottom ∷ style ∷ _) = do
  chosen ← chosen_style style
  elim chosen [ none ↦ ok none | some s ↦ ok (some (meme_entry url top bottom s)) ]
gallery_round url _ = err empty_container

-- The loop.
unfoldable pub gallery : Map Bytes (List Bytes) → Result (Option Bytes)
gallery [] = ok (some [])
gallery ((url, selections) ∷ memes) = do
  entry ← gallery_round url selections
  elim entry [
    | none ↦ ok none
    | some html ↦ do
      later ← gallery memes
      elim later [ none ↦ ok none | some more ↦ ok (some (html ++ more)) ]
  ]

unfoldable pub browse_body : Bytes → Bytes
browse_body entries = browse_head ++ entries ++ codes "</body></html>"
