-- ===== src/Server/Registry.antt =====
-- src/server.cc: `handler_types`, `getHandlers`, `create_and_add_handler` and `get_handler_type`.
use aite_cs.Prelude.{
  Bool, false, ◌||◌, List, [], ◌∷◌, ◌++◌, Option, none, some, Bytes, codes, equal, length, ◌==◌,
  if◌then◌else◌, Result, ok, ◌>>=◌,
}
use aite_cs.ConfigParser.Config.{NginxConfig, nil, statement, null, block}
use aite_cs.Handlers.{
  RequestHandler, echo, not_found, sleep, status, health, new_static_file, new_reverse_proxy,
  new_meme,
}
use aite_cs.Server.State.{Pointer, Server}
use aite_cs.Standard.Map.{Map, find, assign, bytes_key}
use aite_cs.Utils.FilePath.{BoostPath, convert_to_absolute_path}

abbrev pub handler_types : List Bytes
handler_types =
    codes "EchoHandler"
    ∷ codes "StaticHandler"
    ∷ codes "ReverseProxyHandler"
    ∷ codes "NotFoundHandler"
    ∷ codes "StatusHandler"
    ∷ codes "HealthHandler"
    ∷ codes "SleepHandler"
    ∷ codes "MemeHandler"
    ∷ []

-- `m[k]`, which is an empty vector for a new key, and `m[k].push_back(v)`.
module _ {V : Type 0} where
  abbrev pub at_or_empty : Map Bytes (List V) → Bytes → List V
  at_or_empty m k = elim (find m k) [ none ↦ [] | some vs ↦ vs ]

  abbrev pub push_at : Map Bytes (List V) → Bytes → V → Map Bytes (List V)
  push_at m k v = assign m k (at_or_empty m k ++ v ∷ [])

module _ (boost : BoostPath) (is_directory : Bytes → Bool) where
  -- The chain of tests on the type; `none` where no class has that name.
  unfoldable pub new_handler : Bytes → Bytes → NginxConfig → Result (Option RequestHandler)
  new_handler type loc config =
      if equal type (codes "EchoHandler")
      then ok (some echo)
      else if equal type (codes "StaticHandler")
      then (new_static_file boost is_directory loc config >>= λ h. ok (some h))
      else if equal type (codes "ReverseProxyHandler")
      then (new_reverse_proxy loc config >>= λ h. ok (some h))
      else if equal type (codes "NotFoundHandler")
      then ok (some not_found)
      else if equal type (codes "SleepHandler")
      then ok (some sleep)
      else if equal type (codes "MemeHandler")
      then (new_meme config >>= λ h. ok (some h))
      else if equal type (codes "StatusHandler")
      then ok (some status)
      else if equal type (codes "HealthHandler")
      then ok (some health)
      else ok none

  -- The three tables after the allocation.
  unfoldable pub add_handler : Server → Bytes → Bytes → Bytes → RequestHandler → Server
  add_handler server type location loc handler =
      let pointer = length server.handlers in
      record server {
        handlers = server.handlers ++ handler ∷ [];
        handler_to_prefixes_ = push_at server.handler_to_prefixes_ type location;
        location_to_handler_ = assign server.location_to_handler_ loc pointer;
        type_to_handler_ = push_at server.type_to_handler_ type pointer;
      }

  unfoldable pub create_and_add_handler : Server → Bytes → Bytes → NginxConfig → Result Server
  create_and_add_handler server type location config = do
    loc ← convert_to_absolute_path boost location
    made ← new_handler type loc config
    elim made [
      | none ↦ ok server
      | some handler ↦ ok (add_handler server type location loc handler)
    ]

  -- The search for the type among `types`; an unknown one is logged.
  unfoldable pub try_types : Server → List Bytes → Bytes → Bytes → NginxConfig → Result Server
  try_types server [] type location config = ok server
  try_types server (t ∷ types) type location config =
      let later = try_types server types type location config in
      if equal t type then create_and_add_handler server type location config else later

  -- One block inside of a `server` block.
  unfoldable pub add_location : Server → List Bytes → NginxConfig → Result Server
  add_location server (word ∷ location ∷ type ∷ []) config =
      if equal word (codes "location")
      then try_types server handler_types type location config
      else ok server
  add_location server _ config = ok server

  unfoldable pub add_locations : Server → NginxConfig → Result Server
  add_locations server nil = ok server
  add_locations server (statement tokens null rest) = add_locations server rest
  add_locations server (statement tokens (block child) rest) = do
    server' ← add_location server tokens child
    add_locations server' rest

  -- One block of the configuration: only a `server` block is looked into.
  unfoldable pub add_server : Server → List Bytes → NginxConfig → Result Server
  add_server server (word ∷ []) config =
      if equal word (codes "server") then add_locations server config else ok server
  add_server server _ config = ok server

  -- `getHandlers`
  unfoldable pub get_handlers : Server → NginxConfig → Result Server
  get_handlers server nil = ok server
  get_handlers server (statement tokens null rest) = get_handlers server rest
  get_handlers server (statement tokens (block child) rest) = do
    server' ← add_server server tokens child
    get_handlers server' rest

abbrev pub holds : List Pointer → Pointer → Bool
holds [] p = false
holds (q ∷ ps) p = q == p || holds ps p

abbrev pub type_in : Map Bytes (List Pointer) → Pointer → Bytes
type_in [] p = codes "Unknown"
type_in ((type, pointers) ∷ table) p = if holds pointers p then type else type_in table p

-- `none` is the null pointer.
unfoldable pub get_handler_type : Server → Option Pointer → Bytes
get_handler_type server none = codes "Bad"
get_handler_type server (some p) = type_in server.type_to_handler_ p
