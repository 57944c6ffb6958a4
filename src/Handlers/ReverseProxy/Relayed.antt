-- ===== src/Handlers/ReverseProxy/Relayed.antt =====
-- A request that the reverse proxy passes on, and the answer that it passes back.
use aite_cs.Prelude.{
  ℕ, ap, ◌∙◌, ◌≤◌, ◌≢◌, ◌&&◌, leb, none, ◌==◌, ==_iff, arith, inl, inr, Bool-cases, Option-cases,
  if◌then◌else◌, [], ◌∷◌, ◌++◌, some, Bytes, codes, ok, ◌≡◌, refl,
}
use aite_cs.Handlers.ReverseProxy.{redirected, starts_slash, proxied_target, prepared_body}
use aite_cs.Handlers.ReverseProxy.Paths.{substr-append}
use aite_cs.Handlers.ReverseProxy.Proxying.{
  proxied_request, redirect_resp, prepare_proxied_resp, handle_reverse_proxy,
}
use aite_cs.Handlers.ReverseProxy.Rewriting.{Rewritten, replaced_absolute_paths-Rewritten}
use aite_cs.Http.{Http, World}
use aite_cs.HttpClient.{perform_request}

-- The body behind the four rewritings, one after the other: of links, of sources, and of addresses in
-- styles, with a quotation mark and with an escaped slash.
abbrev pub Prepared : Bytes → Bytes → Bytes → Type 0
Prepared location body result =
    (a b c : Bytes) × Rewritten (codes "href=\"/") (codes "href=\"" ++ (location ++ codes "/")) body
      a
    × Rewritten (codes "src=\"/") (codes "src=\"" ++ (location ++ codes "/")) a b
    × Rewritten (codes "url(\"/") (codes "url(\"" ++ (location ++ codes "/")) b c
    × Rewritten (codes "url(\\2f ") (codes "url(" ++ (location ++ codes "\\2f ")) c result

pub prepared_body-Prepared :
    (location body : Bytes)
    → (result : Bytes) × (prepared_body location body ≡ some result) × Prepared location body result
unfolding prepared_body
prepared_body-Prepared location body =
    let (a, e, wa) =
      replaced_absolute_paths-Rewritten location body (codes "href=\"") (codes "/") (λ e. cc) in
    let (b, f, wb) =
      replaced_absolute_paths-Rewritten location a (codes "src=\"") (codes "/") (λ e. cc) in
    let (c, g, wc) =
      replaced_absolute_paths-Rewritten location b (codes "url(\"") (codes "/") (λ e. cc) in
    let (d, h, wd) =
      replaced_absolute_paths-Rewritten location c (codes "url(") (codes "\\2f ") (λ e. cc) in
    (d, rw (e, f, g) h, (a, b, c, wa, wb, wc, wd))

-- The answer with its redirect led through the proxy: only a status from 300 to 399 makes one, and only a
-- `Location` that begins with a slash is changed.
pub data Led (http : Http) (location : Bytes) (resp : http.Response) : http.Response → Type 0 where
  no_redirect :
      ((300 ≤ http.result_int resp) × (http.result_int resp ≤ 399) → ⊥)
      → Led http location resp resp
  no_location : http.find_header resp (codes "Location") ≡ none → Led http location resp resp
  inside :
      {path : Bytes}
      → (300 ≤ http.result_int resp) × (http.result_int resp ≤ 399)
      → http.find_header resp (codes "Location") ≡ some (b'/' ∷ path)
      → Led http location resp (http.set_header resp (codes "Location") (location ++ b'/' ∷ path))
  elsewhere :
      {url : Bytes}
      → (300 ≤ http.result_int resp) × (http.result_int resp ≤ 399)
      → http.find_header resp (codes "Location") ≡ some url
      → ((path : Bytes) → url ≢ b'/' ∷ path)
      → Led http location resp (http.set_header resp (codes "Location") url)

-- What is left of a target behind the location, and the root where nothing is.
abbrev pub or_root : Bytes → Bytes
or_root [] = codes "/"
or_root (c ∷ cs) = c ∷ cs

proxied_target-append :
    (location rest : Bytes) → proxied_target location (location ++ rest) ≡ some (or_root rest)
unfolding proxied_target
proxied_target-append location [] = rw (proxied_target, substr-append location []) refl
proxied_target-append location (c ∷ cs) = rw (proxied_target, substr-append location (c ∷ cs)) refl

redirected-within :
    (location : Bytes) (status : ℕ) (url : Bytes)
    → (300 ≤ status) × (status ≤ 399)
    → redirected location status (some url)
      ≡ (if starts_slash url then some (location ++ url) else some url)
unfolding redirected
redirected-within location status url (low, high) = ground arith

redirected-absent : (location : Bytes) (status : ℕ) → redirected location status none ≡ none
unfolding redirected
redirected-absent location status = refl

redirect_resp-Led :
    (http : Http) (location : Bytes) (resp : http.Response)
    → Led http location resp (redirect_resp http location resp)
unfolding redirect_resp
redirect_resp-Led http location resp =
    elim (Bool-cases (leb 300 (http.result_int resp) && leb (http.result_int resp) 399)) [
      | inr out ↦ rw out (no_redirect (λ h. ground arith))
      | inl within ↦ elim (Option-cases (http.find_header resp (codes "Location"))) [
        | inl absent ↦
            rw (within, absent, redirected-absent location (http.result_int resp))
              (no_location absent)
        | inr (url, found) ↦
            let bounds : (300 ≤ http.result_int resp) × (http.result_int resp ≤ 399) =
              ground arith in
            rw (within, found, redirected-within location (http.result_int resp) url bounds)
              (led_to url bounds found)
      ]
    ]
  where
    led_to :
        (url : Bytes)
        → (300 ≤ http.result_int resp) × (http.result_int resp ≤ 399)
        → http.find_header resp (codes "Location") ≡ some url
        → Led http location resp
            (elim (if starts_slash url then some (location ++ url) else some url)
              as (λ _. http.Response) [
                | none ↦ resp
                | some redirect ↦ http.set_header resp (codes "Location") redirect
              ])
    led_to [] within found = elsewhere within found (λ path e. cc)
    led_to (c ∷ cs) within found = elim (Bool-cases (c == b'/')) [
      | inl slash ↦
          let first = (==_iff c b'/').0 slash in
          let located : http.find_header resp (codes "Location") ≡ some (b'/' ∷ cs) =
            found ∙ ap (λ (d : ℕ). some (d ∷ cs)) first in
          rw (slash, first) (inside within located)
      | inr other ↦ rw other (elsewhere within found (λ path e. ground arith))
    ]

module _ (http : Http) where
  open http use {
    Request, Response, set_target, set_field, set_content, prepare_payload, unchunk, target,
    content,
  }

  -- The request that the other server is meant to get.
  abbrev pub forwarded : Bytes → Bytes → Bytes → Request → Request
  forwarded host port rest req =
      set_field
        (set_field (set_target req (or_root rest)) (codes "Host") (host ++ codes ":" ++ port))
        (codes "Accept-Encoding") (codes "identity")

  -- A request whose target starts with the location goes to the other server with the rest as its target,
  -- or a slash where nothing is left. If it is answered, the client gets that answer with a redirect to a
  -- path of the other server led back through the proxy, and with four forms of an absolute path in its body rewritten: links and
  -- sources in double quotes, and addresses in styles in double quotes or with an escaped slash.
  pub handle_reverse_proxy-Prepared :
      (world : World http) (location host port rest : Bytes) (req : Request) (resp : Response)
      → target req ≡ location ++ rest
      → perform_request http world.network host port (forwarded host port rest req) ≡ ok resp
      → (led : Response) × Led http location resp led
        × (body : Bytes) × Prepared location (content (unchunk led)) body
        × (handle_reverse_proxy http world location host port req
            ≡ ok (prepare_payload (set_content (unchunk led) body)))
  unfolding handle_reverse_proxy proxied_request prepare_proxied_resp
  handle_reverse_proxy-Prepared world location host port rest req resp under answered =
      let led = redirect_resp http location resp in
      let (body, e, prepared) = prepared_body-Prepared location (content (unchunk led)) in
      (
        led,
        redirect_resp-Led http location resp,
        body,
        prepared,
        rw (under, proxied_target-append location rest, answered, e) refl,
      )
