-- ===== src/Server/Added.antt =====
-- What `create_and_add_handler` does to the requests, and where it runs into an empty vector.
use aite_cs.Prelude.{
  ◌≤◌, Bool, false, List, [], ◌∷◌, ◌++◌, some, Bytes, All, length, length-append, codes, equal,
  equal_iff, ok, err, ◌>>=◌, empty_container, ◌≡◌, refl, ap, ◌∙◌, arith, Bool-cases, inl, inr,
}
use aite_cs.ConfigParser.Config.{NginxConfig}
use aite_cs.Handlers.{RequestHandler, first_value, new_static_file, new_reverse_proxy, new_meme}
use aite_cs.Server.State.{Pointer, Server}
use aite_cs.Server.Registry.{new_handler, add_handler, create_and_add_handler}
use aite_cs.Server.Routing.{returned, get_request_handler}
use aite_cs.Server.Routing.Longest.{path_of, ParentLaws, NothingWithin, get_request_handler-longest}
use aite_cs.Server.Tables.{get_elem?, get_elem?-last}
use aite_cs.Standard.Map.{Map, assign, bytes_key, find-assign, find-assign_self}
use aite_cs.Utils.FilePath.{BoostPath, convert_to_absolute_path}
use aite_cs.Utils.FilePath.Canonical.{IsComponent}
use aite_cs.Utils.Lookup.{config_lookup}

length-deeper :
    (inner outer : List Bytes) → length (path_of outer) ≤ length (path_of (inner ++ outer))
length-deeper [] outer = omega arith
length-deeper (d ∷ inner) outer =
    omega (arith, length-deeper inner outer, length-append (path_of (inner ++ outer)) (b'/' ∷ d))

-- A path further in is another path.
deeper-other :
    (d : Bytes) (inner outer : List Bytes)
    → equal (path_of outer) (path_of (d ∷ inner ++ outer)) ≡ false
deeper-other d inner outer =
    elim (Bool-cases (equal (path_of outer) (path_of (d ∷ inner ++ outer)))) [
      | inl same ↦
          let here =
            ap length ((equal_iff (path_of outer) (path_of (d ∷ inner ++ outer))).0 same) in
          absurd (
            omega (
              arith,
              here,
              length-deeper inner outer,
              length-append (path_of (inner ++ outer)) (b'/' ∷ d),
            ))
      | inr other ↦ other
    ]

NothingWithin-assign :
    (locations : Map Bytes Pointer) (inner outer : List Bytes) (p : Pointer)
    → NothingWithin locations inner outer
    → NothingWithin (assign locations (path_of outer) p) inner outer
NothingWithin-assign locations [] outer p _ = tt
NothingWithin-assign locations (d ∷ inner) outer p (h, hs) = (
  find-assign locations (path_of outer) (path_of (d ∷ inner ++ outer)) p
      ∙ rw (deeper-other d inner outer) h,
  NothingWithin-assign locations inner outer p hs,
)

no_value :
    (values : List Bytes)
    → ◌>>=◌ {B = RequestHandler} (first_value values) (λ _. err empty_container)
      ≡ err empty_container
unfolding first_value
no_value [] = refl
no_value (v ∷ vs) = refl

new_reverse_proxy-no_port :
    (loc : Bytes) (config : NginxConfig)
    → config_lookup config [] (codes "port") ≡ []
    → new_reverse_proxy loc config ≡ err empty_container
unfolding new_reverse_proxy first_value
new_reverse_proxy-no_port loc config h = rw h (no_value (config_lookup config [] (codes "host")))

module _ (boost : BoostPath) (is_directory : Bytes → Bool) where
  -- Once a handler has been added at a location, a request whose path lies under it goes to that handler,
  -- unless a location between the two has a handler already; a handler that was at the location before
  -- is replaced.
  pub create_and_add_handler-routes :
      (laws : ParentLaws boost) (server : Server) (type location uri : Bytes) (config : NginxConfig)
      (inner outer : List Bytes) (handler : RequestHandler)
      → convert_to_absolute_path boost location ≡ ok (path_of outer)
      → new_handler boost is_directory type (path_of outer) config ≡ ok (some handler)
      → convert_to_absolute_path boost uri ≡ ok (path_of (inner ++ outer))
      → All IsComponent (inner ++ outer)
      → NothingWithin server.location_to_handler_ inner outer
      → (server' : Server) × (pointer : Pointer) × (create_and_add_handler boost is_directory server
            type location config
          ≡ ok server')
        × (get_request_handler boost server' uri ≡ ok (returned (some pointer)))
        × (get_elem? server'.handlers pointer ≡ some handler)
  unfolding create_and_add_handler add_handler
  create_and_add_handler-routes laws server type location uri config inner outer handler l made u
        plain free =
      let server' = add_handler boost is_directory server type location (path_of outer) handler in
      let pointer = length server.handlers in
      (
        server',
        pointer,
        rw (l, made) refl,
        get_request_handler-longest boost laws server' uri inner outer plain u
            (find-assign_self server.location_to_handler_ (path_of outer) pointer)
            (NothingWithin-assign server.location_to_handler_ inner outer pointer free),
        get_elem?-last server.handlers handler,
      )

  -- The types whose constructors read a field, and the field.
  pub data Reads : Bytes → Bytes → Type 0 where
    static_root : Reads (codes "StaticHandler") (codes "root")
    proxy_host : Reads (codes "ReverseProxyHandler") (codes "host")
    proxy_port : Reads (codes "ReverseProxyHandler") (codes "port")
    meme_root : Reads (codes "MemeHandler") (codes "root")

  -- A location block without a field that its handler reads, at a location that can be converted, is only
  -- logged: the constructor then takes the first element of an empty vector.
  pub create_and_add_handler-missing_field :
      (server : Server) (type location loc field : Bytes) (config : NginxConfig)
      → Reads type field
      → convert_to_absolute_path boost location ≡ ok loc
      → config_lookup config [] field ≡ []
      → create_and_add_handler boost is_directory server type location config ≡ err empty_container
  unfolding create_and_add_handler new_handler new_static_file new_reverse_proxy new_meme
      first_value equal
  create_and_add_handler-missing_field server _ location loc _ config static_root l h =
      rw (l, h) refl
  create_and_add_handler-missing_field server _ location loc _ config proxy_host l h =
      rw (l, h) refl
  create_and_add_handler-missing_field server _ location loc _ config proxy_port l h =
      rw (l, new_reverse_proxy-no_port loc config h) refl
  create_and_add_handler-missing_field server _ location loc _ config meme_root l h = rw (l, h) refl
