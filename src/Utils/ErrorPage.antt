-- ===== src/Utils/ErrorPage.antt =====
-- src/utils.cc: `show_error_page`.
use aite_cs.Prelude.{ℕ, ◌++◌, Bytes, codes, length}
use aite_cs.Http.{Http}

module _ (http : Http) where
  open http use {
    Response, new_response, set_result, set_header, set_content_length, set_content, reason,
  }

  unfoldable pub error_body : ℕ → Bytes → Bytes
  error_body status_code message =
      codes "<!DOCTYPE html><html>"
      ++ codes "<head><title>Error</title></head><body>"
      ++ codes "<h1>"
      ++ reason status_code
      ++ codes " Error"
      ++ codes "</h1>"
      ++ codes "<p>"
      ++ codes "Description: "
      ++ message
      ++ codes "</p>"
      ++ codes "</body></html>"

  -- A response of a status with a content type, the length of its body, and the body.
  unfoldable pub page : ℕ → Bytes → Bytes → Response
  page status content_type body =
      set_content
        (set_content_length
          (set_header (set_result new_response status) (codes "Content-Type") content_type)
          (length body))
        body

  unfoldable pub show_error_page : ℕ → Bytes → Response
  show_error_page status_code message =
      page status_code (codes "text/html") (error_body status_code message)
