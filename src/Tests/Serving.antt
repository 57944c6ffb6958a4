-- ===== src/Tests/Serving.antt =====
-- The theorems on src/server.cc, on a small server.
use aite_cs.Prelude.{
  ℕ, Bool, false, List, [], ◌∷◌, some, ok, err, empty_container, ◌≡◌, refl, arith, Bytes, All,
  codes, equal, ◌==◌,
}
use aite_cs.ConfigParser.Config.{NginxConfig, nil, statement, block}
use aite_cs.Handlers.{RequestHandler, echo}
use aite_cs.Server.State.{Server, empty_server, Pointer}
use aite_cs.Server.Registry.{
  new_handler, add_handler, create_and_add_handler, try_types, add_location, add_locations,
  add_server, get_handlers, get_handler_type,
}
use aite_cs.Server.Routing.{returned, get_request_handler}
use aite_cs.Server.Routing.Longest.{
  path_of, nearest, NothingWithin, get_request_handler-longest, get_request_handler-answers,
}
use aite_cs.Server.Added.{
  create_and_add_handler-routes, create_and_add_handler-missing_field, static_root,
}
use aite_cs.Server.Tables.{type_name, get_elem?}
use aite_cs.Server.Registered.{get_handlers-get_handler_type}
use aite_cs.Standard.Map.{find, assign, less_bytes, bytes_key}
use aite_cs.Utils.FilePath.{walk, add_component, pop_back, unquote, convert_to_absolute_path}
use aite_cs.Utils.FilePath.Canonical.{IsComponent}
use aite_cs.Utils.Lookup.{config_lookup, find_field}
use aite_cs.Tests.Posix.{posix, posix-ParentLaws}

plain_name : (c : ℕ) → (c == b'/') ≡ false → (c == b'.') ≡ false → IsComponent (c ∷ [])
plain_name c h k = (λ e. cc, λ e. ground arith, λ e. cc, (ground arith, tt))

-- Echo handlers at the root and at /a.
abbrev echo_server : Server
echo_server = record empty_server {
  handlers = echo ∷ echo ∷ [];
  location_to_handler_ = ([], 0) ∷ (codes "/a", 1) ∷ [];
}

abbrev under_a : List Bytes
under_a = codes "b" ∷ codes "a" ∷ []

under_a-IsComponent : All IsComponent under_a
under_a-IsComponent = (plain_name b'b' refl refl, (plain_name b'a' refl refl, tt))

under_a_path : convert_to_absolute_path posix (codes "/a/./b") ≡ ok (path_of under_a)
unfolding convert_to_absolute_path walk add_component pop_back unquote equal
under_a_path = refl

a_registered : find echo_server.location_to_handler_ (codes "/a") ≡ some 1
unfolding find equal
a_registered = refl

b_free : NothingWithin echo_server.location_to_handler_ (codes "b" ∷ []) (codes "a" ∷ [])
unfolding find equal
b_free = (refl, tt)

get_request_handler-longest_example :
    get_request_handler posix echo_server (codes "/a/./b") ≡ ok (returned (some 1))
get_request_handler-longest_example =
    get_request_handler-longest posix posix-ParentLaws echo_server (codes "/a/./b") (codes "b" ∷ [])
      (codes "a" ∷ []) under_a-IsComponent under_a_path a_registered b_free

get_request_handler-answers_example :
    (names : List Bytes) × (codes "/a/b" ≡ path_of names)
    × All IsComponent names
    × (get_request_handler posix echo_server (codes "/a/./b")
        ≡ ok (returned (nearest echo_server.location_to_handler_ names)))
get_request_handler-answers_example =
    get_request_handler-answers posix posix-ParentLaws echo_server (codes "/a/./b") (codes "/a/b")
      under_a_path

no_directory : Bytes → Bool
no_directory path = false

a_location : convert_to_absolute_path posix (codes "/a/") ≡ ok (codes "/a")
unfolding convert_to_absolute_path walk add_component pop_back unquote equal
a_location = refl

makes_echo : new_handler posix no_directory (codes "EchoHandler") (codes "/a") nil ≡ ok (some echo)
unfolding new_handler equal
makes_echo = refl

create_and_add_handler-routes_example :
    (server' : Server) × (pointer : Pointer) × (create_and_add_handler posix no_directory
        echo_server
        (codes "EchoHandler")
        (codes "/a/")
        nil
      ≡ ok server')
    × (get_request_handler posix server' (codes "/a/./b") ≡ ok (returned (some pointer)))
    × (get_elem? server'.handlers pointer ≡ some echo)
create_and_add_handler-routes_example =
    create_and_add_handler-routes posix no_directory posix-ParentLaws echo_server
      (codes "EchoHandler") (codes "/a/") (codes "/a/./b") nil (codes "b" ∷ []) (codes "a" ∷ [])
      echo a_location makes_echo under_a_path under_a-IsComponent b_free

no_root : config_lookup nil [] (codes "root") ≡ []
unfolding config_lookup find_field
no_root = refl

create_and_add_handler-missing_field_example :
    create_and_add_handler posix no_directory empty_server (codes "StaticHandler") (codes "/a/") nil
    ≡ err empty_container
create_and_add_handler-missing_field_example =
    create_and_add_handler-missing_field posix no_directory empty_server (codes "StaticHandler")
      (codes "/a/") (codes "/a") (codes "root") nil static_root a_location no_root

abbrev one_location : NginxConfig
one_location =
    statement (codes "server" ∷ [])
      (block (
        statement (codes "location" ∷ codes "/a" ∷ codes "EchoHandler" ∷ []) (block nil)
          (statement (codes "location" ∷ codes "/b" ∷ codes "NoHandler" ∷ []) (block nil) nil)))
      nil

abbrev one_server : Server
one_server = record empty_server {
  handlers = echo ∷ [];
  location_to_handler_ = (codes "/a", 0) ∷ [];
  handler_to_prefixes_ = (codes "EchoHandler", codes "/a" ∷ []) ∷ [];
  type_to_handler_ = (codes "EchoHandler", 0 ∷ []) ∷ [];
}

one_run : get_handlers posix no_directory empty_server one_location ≡ ok one_server
unfolding get_handlers add_server add_locations add_location try_types create_and_add_handler
    new_handler add_handler convert_to_absolute_path walk add_component pop_back unquote equal find
    assign less_bytes
one_run = refl

one_found : find one_server.location_to_handler_ (codes "/a") ≡ some 0
unfolding find equal
one_found = refl

get_handlers-get_handler_type_example :
    (handler : RequestHandler) × (get_elem? one_server.handlers 0 ≡ some handler)
    × (get_handler_type one_server (some 0) ≡ type_name handler)
get_handlers-get_handler_type_example =
    get_handlers-get_handler_type posix no_directory one_location one_server (codes "/a") one_run
      one_found
