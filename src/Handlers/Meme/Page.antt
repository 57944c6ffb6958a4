-- ===== src/Handlers/Meme/Page.antt =====
-- src/handlers/meme_handler.cc: what stands on the page of a new meme.
use aite_cs.Prelude.{◌-◌, ◌++◌, Bytes, codes, take, drop, length, ◌≡◌, refl, ap, ◌∙◌, append_assoc}
use aite_cs.Handlers.Meme.Actions.{image_url, generated_body}
use aite_cs.Handlers.Meme.Html.{generated_head, generated_middle, generated_form, generated_style}
use aite_cs.Handlers.Meme.Styles.{TemplateStyle, style_sheet}
use aite_cs.Handlers.Meme.Upload.{Upload}

-- A page with the two captions, the image and the style sheet where a page of a meme has them.
abbrev pub IsMemePage : Bytes → Bytes → Bytes → Bytes → Bytes → Type 0
IsMemePage content top bottom image sheet =
    (before middle after : Bytes) × (content
      ≡ before
        ++ (codes "<div class='top-text captions'>"
            ++ (top
                ++ (codes "</div><div class='bottom-text captions'>"
                    ++ (bottom
                        ++ (codes "</div>"
                            ++ (middle
                                ++ (codes "background-image:url("
                                    ++ (image
                                        ++ (codes ")"
                                            ++ (after
                                                ++ (sheet
                                                    ++ codes "</style></body></html>"))))))))))))

-- The texts of the page end and begin with what surrounds a caption or the image.
generated_parts :
    (generated_head
      ≡ take (length generated_head - 31) generated_head ++ codes "<div class='top-text captions'>")
    × (generated_form
        ≡ codes "</div>"
          ++ (take (length generated_form - 27) (drop 6 generated_form)
              ++ codes "background-image:url("))
    × (generated_style ≡ codes ")" ++ drop 1 generated_style)
unfolding generated_head generated_form generated_style
generated_parts = (refl, refl, refl)

pub generated_body-IsMemePage :
    (upload : Upload) (style : TemplateStyle)
    → IsMemePage
        (generated_body upload style)
        upload.top
        upload.bottom
        (codes "." ++ upload.path)
        (style_sheet style)
unfolding generated_body image_url generated_middle
generated_body-IsMemePage upload style =
    let (head, form, end) = generated_parts in
    (
      take (length generated_head - 31) generated_head,
      take (length generated_form - 27) (drop 6 generated_form),
      drop 1 generated_style,
      ap (λ (h : Bytes). assembled h generated_form generated_style) head
          ∙ ap
              (λ (m : Bytes).
                assembled
                  (take (length generated_head - 31) generated_head
                    ++ codes "<div class='top-text captions'>")
                  m generated_style)
              form
          ∙ ap
              (λ (s : Bytes).
                assembled
                  (take (length generated_head - 31) generated_head
                    ++ codes "<div class='top-text captions'>")
                  (codes "</div>"
                    ++ (take (length generated_form - 27) (drop 6 generated_form)
                        ++ codes "background-image:url("))
                  s)
              end
          ∙ simp append_assoc,
    )
  where
    assembled : Bytes → Bytes → Bytes → Bytes
    assembled h m s =
        h
        ++ upload.top
        ++ codes "</div><div class='bottom-text captions'>"
        ++ upload.bottom
        ++ m
        ++ (codes "." ++ upload.path)
        ++ s
        ++ style_sheet style
        ++ codes "</style></body></html>"
