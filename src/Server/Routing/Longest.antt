-- ===== src/Server/Routing/Longest.antt =====
-- The handler found for a request is that of the longest registered location above its path.
use aite_cs.Prelude.{
  ℕ, zero, suc, ◌≤◌, true, false, List, [], ◌∷◌, ◌++◌, Option, none, some, Bytes, All, length,
  length-append, ok, ◌≡◌, refl, arith, append_assoc, append-nil, ap, sym, ◌∙◌,
}
use aite_cs.Server.State.{Pointer, Server}
use aite_cs.Server.Routing.{returned, found_or, search_parents, get_request_handler}
use aite_cs.Standard.Map.{Map, find, bytes_key}
use aite_cs.Utils.FilePath.{BoostPath, join, convert_to_absolute_path}
use aite_cs.Utils.FilePath.Canonical.{IsComponent, convert_to_absolute_path-IsComponent}

-- The path whose names are given from the innermost outwards.
abbrev pub path_of : List Bytes → Bytes
path_of [] = []
path_of (d ∷ outer) = path_of outer ++ b'/' ∷ d

-- What the code relies on of `has_parent_path` and `parent_path`, on paths of plain names.
pub record ParentLaws (boost : BoostPath) : Type 0 where
  pub has_parent :
      (d : Bytes) (outer : List Bytes)
      → All IsComponent (d ∷ outer)
      → boost.has_parent_path (path_of (d ∷ outer)) ≡ true
  pub parent :
      (d e : Bytes) (outer : List Bytes)
      → All IsComponent (d ∷ e ∷ outer)
      → boost.parent_path (path_of (d ∷ e ∷ outer)) ≡ path_of (e ∷ outer)
  pub parent_top : (d : Bytes) → IsComponent d → boost.parent_path (path_of (d ∷ [])) ≡ b'/' ∷ []
  pub root_has_none : boost.has_parent_path (b'/' ∷ []) ≡ false
  pub empty_has_none : boost.has_parent_path [] ≡ false

abbrev pub first_of : Option Pointer → Option Pointer → Option Pointer
first_of (some handler) above = some handler
first_of none above = above

found_or-returned :
    (o above : Option Pointer) → found_or o (returned above) ≡ returned (first_of o above)
found_or-returned none above = refl
found_or-returned (some handler) above = refl

-- The handler of the longest location among the path and the paths above it, the root last.
unfoldable pub nearest : Map Bytes Pointer → List Bytes → Option Pointer
nearest locations [] = find locations []
nearest locations (d ∷ outer) =
    first_of (find locations (path_of (d ∷ outer))) (nearest locations outer)

module _ (boost : BoostPath) (laws : ParentLaws boost) (locations : Map Bytes Pointer) where
  search_parents-nearest :
      (names : List Bytes) (fuel : ℕ)
      → All IsComponent names
      → suc (length names) ≤ fuel
      → search_parents boost locations fuel (path_of names) ≡ returned (nearest locations names)
  unfolding search_parents nearest
  search_parents-nearest names zero h f = absurd (omega arith)
  search_parents-nearest [] (suc fuel) h f = rw (laws.empty_has_none) refl
  search_parents-nearest (d ∷ []) (suc zero) h f = absurd (omega arith)
  search_parents-nearest (d ∷ []) (suc (suc fuel)) h f =
      rw (laws.has_parent d [] h, laws.parent_top d h.0, laws.root_has_none)
        (found_or-returned (find locations (path_of (d ∷ []))) _)
  search_parents-nearest (d ∷ e ∷ outer) (suc fuel) h f =
      rw
        (
          laws.has_parent d (e ∷ outer) h,
          laws.parent d e outer h,
          search_parents-nearest (e ∷ outer) fuel h.1 (omega arith),
        )
        (found_or-returned (find locations (path_of (d ∷ e ∷ outer))) _)

length-path_of : (names : List Bytes) → length names ≤ length (path_of names)
length-path_of [] = omega arith
length-path_of (d ∷ outer) =
    omega (arith, length-path_of outer, length-append (path_of outer) (b'/' ∷ d))

-- No location is registered for a path that leads from `outer` inwards along all or some of `inner`.
abbrev pub NothingWithin : Map Bytes Pointer → List Bytes → List Bytes → Type 0
NothingWithin locations [] outer = Unit
NothingWithin locations (d ∷ inner) outer =
    (find locations (path_of (d ∷ inner ++ outer)) ≡ none) × NothingWithin locations inner outer

nearest-NothingWithin :
    (locations : Map Bytes Pointer) (inner outer : List Bytes)
    → NothingWithin locations inner outer
    → nearest locations (inner ++ outer) ≡ nearest locations outer
unfolding nearest
nearest-NothingWithin locations [] outer h = refl
nearest-NothingWithin locations (d ∷ inner) outer (h, hs) =
    rw h (nearest-NothingWithin locations inner outer hs)

nearest-registered :
    (locations : Map Bytes Pointer) (outer : List Bytes) {handler : Pointer}
    → find locations (path_of outer) ≡ some handler
    → nearest locations outer ≡ some handler
unfolding nearest
nearest-registered locations [] h = h
nearest-registered locations (d ∷ outer) h = rw h refl

nearest-none :
    (locations : Map Bytes Pointer) (names : List Bytes)
    → NothingWithin locations names []
    → find locations [] ≡ none
    → nearest locations names ≡ none
unfolding nearest
nearest-none locations names h root =
    ap (nearest locations) (sym (append-nil names))
    ∙ nearest-NothingWithin locations names [] h
    ∙ root

-- The names in their order, taken onto those further out.
abbrev inwards : List Bytes → List Bytes → List Bytes
inwards [] outer = outer
inwards (d ∷ dirs) outer = inwards dirs (d ∷ outer)

path_of-inwards :
    (dirs outer : List Bytes) → path_of (inwards dirs outer) ≡ path_of outer ++ join dirs
path_of-inwards [] outer = sym (append-nil (path_of outer))
path_of-inwards (d ∷ dirs) outer = path_of-inwards dirs (d ∷ outer) ∙ rw append_assoc

inwards-IsComponent :
    (dirs outer : List Bytes)
    → All IsComponent dirs
    → All IsComponent outer
    → All IsComponent (inwards dirs outer)
inwards-IsComponent [] outer _ h = h
inwards-IsComponent (d ∷ dirs) outer (k, ks) h = inwards-IsComponent dirs (d ∷ outer) ks (k, h)

module _ (boost : BoostPath) (laws : ParentLaws boost) (server : Server) (uri : Bytes) where
  get_request_handler-nearest :
      (names : List Bytes)
      → All IsComponent names
      → convert_to_absolute_path boost uri ≡ ok (path_of names)
      → get_request_handler boost server uri
        ≡ ok (returned (nearest server.location_to_handler_ names))
  unfolding get_request_handler
  get_request_handler-nearest names h e = rw (e) (
      ap ok (
        search_parents-nearest boost laws server.location_to_handler_ names
          (suc (length (path_of names))) h (omega (arith, length-path_of names))))

  -- Given the laws of parent paths, a request goes to the handler of the longest registered location that
  -- its path lies under, whole names compared: `outer` is that location, and no location between it and
  -- the path has a handler.
  pub get_request_handler-longest :
      (inner outer : List Bytes) {handler : Pointer}
      → All IsComponent (inner ++ outer)
      → convert_to_absolute_path boost uri ≡ ok (path_of (inner ++ outer))
      → find server.location_to_handler_ (path_of outer) ≡ some handler
      → NothingWithin server.location_to_handler_ inner outer
      → get_request_handler boost server uri ≡ ok (returned (some handler))
  get_request_handler-longest inner outer h e found free =
      get_request_handler-nearest (inner ++ outer) h e
      ∙ rw (nearest-NothingWithin _ inner outer free, nearest-registered _ outer found) refl

  -- The null pointer is returned when neither the path nor any path above it, the root included, has a
  -- handler.
  pub get_request_handler-null :
      (names : List Bytes)
      → All IsComponent names
      → convert_to_absolute_path boost uri ≡ ok (path_of names)
      → NothingWithin server.location_to_handler_ names []
      → find server.location_to_handler_ [] ≡ none
      → get_request_handler boost server uri ≡ ok (returned none)
  get_request_handler-null names h e free root =
      get_request_handler-nearest names h e ∙ rw (nearest-none _ names free root) refl

  -- Whenever the path of the request can be converted, the search ends with an answer: the handler of the
  -- longest registered location among the path and the paths above it, or null.
  pub get_request_handler-answers :
      (path : Bytes)
      → convert_to_absolute_path boost uri ≡ ok path
      → (names : List Bytes) × (path ≡ path_of names)
        × All IsComponent names
        × (get_request_handler boost server uri
            ≡ ok (returned (nearest server.location_to_handler_ names)))
  get_request_handler-answers path e =
      let (dirs, same, h) = convert_to_absolute_path-IsComponent boost uri path e in
      let names = inwards dirs [] in
      let plain = inwards-IsComponent dirs [] h tt in
      let same' : path ≡ path_of names = same ∙ sym (path_of-inwards dirs []) in
      (names, same', plain, get_request_handler-nearest names plain (e ∙ ap ok same'))
