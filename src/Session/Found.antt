-- ===== src/Session/Found.antt =====
-- The handler of a session that goes on to read a body is one of the server's.
use aite_cs.Prelude.{
  ℕ, zero, suc, ◌<◌, [], Option, none, some, Bytes, All, arith, length, ℤ, pos, negsuc, ok,
  bind-eq-ok, Bool-cases, Option-cases, inl, inr, ◌≡◌, refl, sym, ap, ◌∙◌,
}
use aite_cs.RequestParser.Machine.{Tribool, is_true, is_false, indeterminate}
use aite_cs.Server.Routing.{Search, returned, out_of_fuel, search_parents, get_request_handler}
use aite_cs.Server.State.{Pointer, Server}
use aite_cs.Server.Tables.{find-All}
use aite_cs.Session.{
  respond, take_body, read_body, content_length_of, on_header, handle_read_header,
}
use aite_cs.Session.Callbacks.{pointer_found, look_up, known}
use aite_cs.Standard.Map.{Map, find, bytes_key}
use aite_cs.Utils.FilePath.{BoostPath, convert_to_absolute_path}

-- Every location has a handler.
abbrev pub IsPointing : Server → Type 0
IsPointing server = All (λ entry. entry.1 < length server.handlers) server.location_to_handler_

module _ (boost : BoostPath) where
  search_parents-below :
      (m : Map Bytes Pointer) (n fuel : ℕ) (uri : Bytes) {p : Pointer}
      → All (λ entry. entry.1 < n) m
      → search_parents boost m fuel uri ≡ returned (some p)
      → p < n
  unfolding search_parents
  search_parents-below m n zero uri a e = absurd (cc)
  search_parents-below m n (suc fuel) uri {p} a e =
      let later = search_parents-below m n fuel (boost.parent_path uri) {p = p} a in
      elim (Bool-cases (boost.has_parent_path uri)) [
        | inl has ↦ elim (Option-cases (find m uri)) [
          | inl missing ↦ later (rw (has, missing) at e)
          | inr (q, there) ↦
              let found = rw (has, there) at e in
              let same : q ≡ p = cc in
              find-All (λ entry. entry.1 < n) m uri a (there ∙ ap some same)
        ]
        | inr top ↦
            let root = rw top at e in
            let there : find m [] ≡ some p = cc in find-All (λ entry. entry.1 < n) m [] a there
      ]

  pub get_request_handler-below :
      (server : Server) (uri : Bytes) {p : Pointer}
      → IsPointing server
      → get_request_handler boost server uri ≡ ok (returned (some p))
      → p < length server.handlers
  unfolding get_request_handler
  get_request_handler-below server uri {p} a e =
      let (path, _, there) = bind-eq-ok (convert_to_absolute_path boost uri) _ e in
      search_parents-below server.location_to_handler_ (length server.handlers) (suc (length path))
        path a (cc)

  look_up-below :
      (n : ℕ) (server : Server) (uri : Bytes) (handler : Option (Option Pointer))
      {found : Option (Option Pointer)} (p : Pointer)
      → IsPointing server
      → look_up boost is_true (pos n) server uri handler ≡ ok found
      → known found ≡ some p
      → (found ≡ some (some p)) × (p < length server.handlers)
  unfolding look_up
  look_up-below n server uri handler {found} p a e k =
      let (search, searched, e1) = bind-eq-ok (get_request_handler boost server uri) _ e in
      let (pointer, at, e2) = bind-eq-ok (pointer_found search) _ e1 in
      let same : some pointer ≡ found = cc in
      let here : known (some pointer) ≡ some p = ap known same ∙ k in
      let there : found ≡ some (some p) = sym same ∙ ap some here in
      (
        there,
        get_request_handler-below server uri a (searched ∙ ap ok (returned_of search at here)),
      )
    where
      returned_of :
          (search : Search) {pointer : Option Pointer}
          → pointer_found search ≡ ok pointer
          → pointer ≡ some p
          → search ≡ returned (some p)
      returned_of (returned q) e h = cc
      returned_of out_of_fuel e h = absurd (cc)

on_header-read_body :
    (r : Tribool) (k n : ℕ) (handler : Option Pointer) (body left content : Bytes)
    → on_header r k handler body left ≡ read_body n content
    → (r ≡ is_true) × ((p : Pointer) × (handler ≡ some p))
unfolding on_header
on_header-read_body is_true k n none body left content e = absurd (cc)
on_header-read_body is_true k n (some p) body left content e = (refl, (p, refl))
on_header-read_body is_false k n handler body left content e = absurd (cc)
on_header-read_body indeterminate k n handler body left content e = absurd (cc)

take_body-respond :
    (handler : Pointer) (n : ℕ) (body left : Bytes) (p : Pointer) (content : Bytes)
    → take_body handler n body left ≡ respond p content
    → handler ≡ p
unfolding take_body
take_body-respond handler n body left p content e = ground arith

on_header-respond :
    (r : Tribool) (k : ℕ) (handler : Option Pointer) (body left : Bytes) (p : Pointer)
    (content : Bytes)
    → on_header r k handler body left ≡ respond p content
    → (r ≡ is_true) × (handler ≡ some p)
unfolding on_header
on_header-respond is_true k none body left p content e = absurd (cc)
on_header-respond is_true k (some q) body left p content e =
    (refl, ap some (take_body-respond q k body left p content e))
on_header-respond is_false k handler body left p content e = absurd (cc)
on_header-respond indeterminate k handler body left p content e = absurd (cc)

module _ (boost : BoostPath) where
  -- What is decided on a header, with the handler that was looked up for it.
  pub handle_read_header-found :
      (r : Tribool) (field uri : Bytes) (server : Server) (handler : Option (Option Pointer))
      (body left content : Bytes) (n : ℕ) {found : Option (Option Pointer)}
      → IsPointing server
      → look_up boost r (content_length_of field) server uri handler ≡ ok found
      → handle_read_header r field (known found) body left ≡ read_body n content
      → (p : Pointer) × (found ≡ some (some p)) × (p < length server.handlers)
  unfolding handle_read_header
  handle_read_header-found r field uri server handler body left content n {found} a looked e =
      go r (content_length_of field) refl looked e
    where
      go :
          (t : Tribool) (z : ℤ)
          → content_length_of field ≡ z
          → look_up boost t z server uri handler ≡ ok found
          → handle_read_header t field (known found) body left ≡ read_body n content
          → (p : Pointer) × (found ≡ some (some p)) × (p < length server.handlers)
      go t (negsuc k) z l e = let bad = rw (handle_read_header, z) at e in absurd (cc)
      go is_false (pos k) z l e = let bad = rw (handle_read_header, z) at e in absurd (cc)
      go is_true (pos k) z l e =
          let (_, (p, is)) =
            on_header-read_body is_true k n (known found) body left content
              (rw (handle_read_header, z) at e) in
          let (there, below) = look_up-below boost k server uri handler p a l is in
          (p, there, below)
      go indeterminate (pos k) z l e =
          let (t, (p, is)) =
            on_header-read_body indeterminate k n (known found) body left content
              (rw (handle_read_header, z) at e) in
          absurd (cc)

  pub handle_read_header-below :
      (r : Tribool) (field uri : Bytes) (server : Server) (handler : Option (Option Pointer))
      (body left content : Bytes) (p : Pointer) {found : Option (Option Pointer)}
      → IsPointing server
      → look_up boost r (content_length_of field) server uri handler ≡ ok found
      → handle_read_header r field (known found) body left ≡ respond p content
      → p < length server.handlers
  unfolding handle_read_header
  handle_read_header-below r field uri server handler body left content p {found} a looked e =
      go r (content_length_of field) refl looked e
    where
      go :
          (t : Tribool) (z : ℤ)
          → content_length_of field ≡ z
          → look_up boost t z server uri handler ≡ ok found
          → handle_read_header t field (known found) body left ≡ respond p content
          → p < length server.handlers
      go t (negsuc k) z l e = let bad = rw (handle_read_header, z) at e in absurd (cc)
      go is_false (pos k) z l e = let bad = rw (handle_read_header, z) at e in absurd (cc)
      go is_true (pos k) z l e =
          let (_, is) =
            on_header-respond is_true k (known found) body left p content
              (rw (handle_read_header, z) at e) in
          (look_up-below boost k server uri handler p a l is).1
      go indeterminate (pos k) z l e =
          let (t, is) =
            on_header-respond indeterminate k (known found) body left p content
              (rw (handle_read_header, z) at e) in
          absurd (cc)
