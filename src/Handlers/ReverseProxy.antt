-- ===== src/Handlers/ReverseProxy.antt =====
-- src/handlers/reverse_proxy_handler.cc: the paths that the reverse proxy rewrites.
pub mod Rewriting
pub mod Paths
pub mod Proxying
pub mod Relayed
use aite_cs.Prelude.{
  ℕ, zero, suc, ◌+◌, Bool, true, false, ◌&&◌, [], ◌∷◌, ◌++◌, Option, none, some, Bytes, codes,
  length, drop, leb, ◌==◌, if◌then◌else◌,
}

abbrev pub is_prefix : Bytes → Bytes → Bool
is_prefix [] text = true
is_prefix (c ∷ cs) [] = false
is_prefix (c ∷ cs) (d ∷ ds) = c == d && is_prefix cs ds

abbrev pub add_front : ℕ → Option (Bytes × Bytes) → Option (Bytes × Bytes)
add_front c none = none
add_front c (some (before, after)) = some (c ∷ before, after)

-- `std::string::find`, as what stands before and behind the first occurrence.
unfoldable pub find_split : Bytes → Bytes → Option (Bytes × Bytes)
find_split from [] = if is_prefix from [] then some ([], []) else none
find_split from (c ∷ cs) =
    let later = find_split from cs in
    if is_prefix from (c ∷ cs) then some ([], drop (length from) (c ∷ cs)) else add_front c later

abbrev pub starts_slash : Bytes → Bool
starts_slash [] = false
starts_slash (c ∷ _) = c == b'/'

-- The loop. `new_body` is `done ++ rest`, and `pos` is the length of `done`; `none` is no answer for want
-- of fuel.
unfoldable pub replace_loop : ℕ → Bytes → Bytes → Bytes → Bytes → Option Bytes
replace_loop zero from to done rest = none
replace_loop (suc fuel) from to done rest = elim (find_split from rest) [
  | none ↦ some (done ++ rest)
  | some (before, after) ↦
      let kept = replace_loop fuel from to (done ++ (before ++ from)) after in
      let changed = replace_loop fuel from to (done ++ (before ++ to)) after in
      if starts_slash after then kept else changed
]

unfoldable pub replaced_absolute_paths : Bytes → Bytes → Bytes → Bytes → Option Bytes
replaced_absolute_paths location body prefix separator =
    replace_loop (suc (length body)) (prefix ++ separator) (prefix ++ (location ++ separator)) []
      body

-- `substr(n)`; `none` is the exception `std::out_of_range`.
unfoldable pub substr : ℕ → Bytes → Option Bytes
substr n text = if leb n (length text) then some (drop n text) else none

-- The target of the request that is sent on.
unfoldable pub proxied_target : Bytes → Bytes → Option Bytes
proxied_target location target = elim (substr (length location) target) [
  | none ↦ none
  | some [] ↦ some (codes "/")
  | some (c ∷ cs) ↦ some (c ∷ cs)
]

-- The `Location` header of a response, if there is one.
unfoldable pub redirected : Bytes → ℕ → Option Bytes → Option Bytes
redirected location status_code none = none
redirected location status_code (some redirect) =
    if leb 300 status_code && leb status_code 399 && starts_slash redirect
    then some (location ++ redirect)
    else some redirect

-- The part in front of the first slash, and the rest from it on.
abbrev pub before_slash : Bytes → Bytes
before_slash [] = []
before_slash (c ∷ cs) = if c == b'/' then [] else c ∷ before_slash cs

abbrev pub from_slash : Bytes → Bytes
from_slash [] = codes "/"
from_slash (c ∷ cs) = if c == b'/' then c ∷ cs else from_slash cs

unfoldable pub parse_host_from_http_url : Bytes → Option Bytes
parse_host_from_http_url url = elim (substr 7 url) [
  | none ↦ none
  | some rest ↦ some (before_slash rest)
]

unfoldable pub parse_target_from_http_url : Bytes → Option Bytes
parse_target_from_http_url url = elim (substr 7 url) [
  | none ↦ none
  | some rest ↦ some (from_slash rest)
]

abbrev pub then_replace : Option Bytes → (Bytes → Option Bytes) → Option Bytes
then_replace none f = none
then_replace (some body) f = f body

-- The body of the response that is sent back.
unfoldable pub prepared_body : Bytes → Bytes → Option Bytes
prepared_body location body =
    then_replace
      (then_replace
        (then_replace (replaced_absolute_paths location body (codes "href=\"") (codes "/"))
          (λ b. replaced_absolute_paths location b (codes "src=\"") (codes "/")))
        (λ b. replaced_absolute_paths location b (codes "url(\"") (codes "/")))
      (λ b. replaced_absolute_paths location b (codes "url(") (codes "\\2f "))
