-- ===== src/Handlers/ReverseProxy/Paths.antt =====
-- Targets, redirects and URLs.
use aite_cs.Prelude.{
  true, [], ◌∷◌, ◌++◌, some, Bytes, All, codes, length, length-append, drop, leb, ◌≡◌, ◌≢◌, refl,
  ap, ◌∙◌, arith,
}
use aite_cs.Handlers.ReverseProxy.{
  substr, before_slash, from_slash, parse_host_from_http_url, parse_target_from_http_url,
}

drop-append : (xs ys : Bytes) → drop (length xs) (xs ++ ys) ≡ ys
drop-append [] ys = refl
drop-append (x ∷ xs) ys = drop-append xs ys

pub substr-append : (xs ys : Bytes) → substr (length xs) (xs ++ ys) ≡ some ys
unfolding substr
substr-append xs ys =
    let fits : leb (length xs) (length (xs ++ ys)) ≡ true = ground (arith, length-append xs ys) in
    rw (fits, drop-append xs ys) refl

abbrev IsHost : Bytes → Type 0
IsHost = All (λ c. c ≢ b'/')

before_slash-host : (host path : Bytes) → IsHost host → before_slash (host ++ b'/' ∷ path) ≡ host
before_slash-host [] path h = refl
before_slash-host (c ∷ host) path (h, hs) = ground (arith, before_slash-host host path hs)

from_slash-host : (host path : Bytes) → IsHost host → from_slash (host ++ b'/' ∷ path) ≡ b'/' ∷ path
from_slash-host [] path h = refl
from_slash-host (c ∷ host) path (h, hs) = ground (arith, from_slash-host host path hs)

before_slash-all :
    (host : Bytes) → IsHost host → (before_slash host ≡ host) × (from_slash host ≡ codes "/")
before_slash-all [] h = (refl, refl)
before_slash-all (c ∷ host) (h, hs) = ground (arith, before_slash-all host hs)

url_parts :
    (url : Bytes)
    → (parse_host_from_http_url (codes "http://" ++ url) ≡ some (before_slash url))
      × (parse_target_from_http_url (codes "http://" ++ url) ≡ some (from_slash url))
unfolding parse_host_from_http_url parse_target_from_http_url substr
url_parts url =
    let fits : leb 7 (length (codes "http://" ++ url)) ≡ true = ground arith in
    (
      rw (parse_host_from_http_url, substr, fits) refl,
      rw (parse_target_from_http_url, substr, fits) refl,
    )

-- From a URL that is `http://`, a host with no slash in it, and a path or nothing, the two functions
-- read the host and the path, which is `/` where there is none.
pub parse_host-parse_target :
    (host path : Bytes)
    → All (λ c. c ≢ b'/') host
    → (parse_host_from_http_url (codes "http://" ++ (host ++ b'/' ∷ path)) ≡ some host)
      × (parse_target_from_http_url (codes "http://" ++ (host ++ b'/' ∷ path)) ≡ some (b'/' ∷ path))
      × (parse_host_from_http_url (codes "http://" ++ host) ≡ some host)
      × (parse_target_from_http_url (codes "http://" ++ host) ≡ some (codes "/"))
unfolding parse_host_from_http_url parse_target_from_http_url
parse_host-parse_target host path h =
    let (alone, root) = before_slash-all host h in
    (
      (url_parts (host ++ b'/' ∷ path)).0 ∙ ap some (before_slash-host host path h),
      (url_parts (host ++ b'/' ∷ path)).1 ∙ ap some (from_slash-host host path h),
      (url_parts host).0 ∙ ap some alone,
      (url_parts host).1 ∙ ap some root,
    )
