-- ===== src/Server/Registered.antt =====
-- The tables that `getHandlers` fills agree: every handler has the type that it was asked for.
use aite_cs.Prelude.{
  suc, ◌<◌, Bool, List, [], ◌∷◌, ◌++◌, Option, none, some, Bytes, All-append, codes, equal, length,
  length-append, ◌==◌, ==_iff, Result, ok, ◌≡◌, refl, arith, subst, bind-eq-ok, Bool-cases, inl,
  inr,
}
use aite_cs.ConfigParser.Config.{NginxConfig, nil, statement, null, block}
use aite_cs.Handlers.{RequestHandler}
use aite_cs.Server.State.{Pointer, Server, empty_server}
use aite_cs.Server.Registry.{
  handler_types, at_or_empty, new_handler, add_handler, create_and_add_handler, try_types,
  add_location, add_locations, add_server, get_handlers, get_handler_type,
}
use aite_cs.Standard.Map.{assign-All, find, bytes_key}
use aite_cs.Utils.FilePath.{BoostPath, convert_to_absolute_path}
use aite_cs.Server.Tables.{
  type_name, get_elem?, HasType, EntryTyped, IsWellFormed, type_in-listed, EntryTyped-append,
  get_elem?-last, at_or_empty-HasType, listed-assign_self, holds-last, listed-push_at, below_mono,
  get_elem?-lt, find-All,
}
use aite_cs.Server.Made.{new_handler-type}

module _ (boost : BoostPath) (is_directory : Bytes → Bool) where
  add_handler-IsWellFormed :
      (server : Server) (type location loc : Bytes) (handler : RequestHandler)
      → type_name handler ≡ type
      → IsWellFormed server
      → IsWellFormed (add_handler boost is_directory server type location loc handler)
  unfolding add_handler
  add_handler-IsWellFormed server type location loc handler same w =
      let heap = server.handlers in
      let heap' = heap ++ handler ∷ [] in
      let fresh = length heap in
      let table = server.type_to_handler_ in
      let grown = EntryTyped-append heap (handler ∷ []) table w.typed in
      let mine : HasType heap' type fresh = (handler, get_elem?-last heap handler, same) in
      let longer : length heap' ≡ suc fresh = omega (arith, length-append heap (handler ∷ [])) in
      record {
        typed =
            assign-All (EntryTyped heap') table type (at_or_empty table type ++ fresh ∷ []) grown (
              All-append (HasType heap' type) (at_or_empty table type) (fresh ∷ [])
                (at_or_empty-HasType heap' table type grown) (mine, tt));
        complete = λ p l. elim (Bool-cases (p == fresh)) [
          | inl new ↦
              rw ((==_iff p fresh).0 new)
                (listed-assign_self table type _ fresh (holds-last (at_or_empty table type) fresh))
          | inr older ↦ listed-push_at table type fresh p (w.complete p (ground arith))
        ];
        pointing =
            assign-All (λ entry. entry.1 < length heap') server.location_to_handler_ loc fresh
              (below_mono server.location_to_handler_ fresh (length heap') (omega arith) w.pointing)
              (omega arith);
        uncounted = w.uncounted;
      }

empty_server-IsWellFormed : IsWellFormed empty_server
empty_server-IsWellFormed = record {
  typed = tt;
  complete = λ p l. absurd (omega arith);
  pointing = tt;
  uncounted = refl;
}

module _ (boost : BoostPath) (is_directory : Bytes → Bool) where
  create_and_add_handler-IsWellFormed :
      (server server' : Server) (type location : Bytes) (config : NginxConfig)
      → IsWellFormed server
      → create_and_add_handler boost is_directory server type location config ≡ ok server'
      → IsWellFormed server'
  unfolding create_and_add_handler
  create_and_add_handler-IsWellFormed server server' type location config w e =
      let (loc, _, e1) = bind-eq-ok (convert_to_absolute_path boost location) _ e in
      let (made, e2, e3) = bind-eq-ok (new_handler boost is_directory type loc config) _ e1 in
      added loc made e2 e3
    where
      added :
          (loc : Bytes) (made : Option RequestHandler)
          → new_handler boost is_directory type loc config ≡ ok made
          → (elim made as (λ _. Result Server) [
            | none ↦ ok server
            | some handler ↦ ok (add_handler boost is_directory server type location loc handler)
          ])
            ≡ ok server'
          → IsWellFormed server'
      added loc none _ e = let same : server ≡ server' = cc in subst IsWellFormed same w
      added loc (some handler) made e =
          let same : add_handler boost is_directory server type location loc handler ≡ server' =
            cc in
          subst IsWellFormed same (
            add_handler-IsWellFormed boost is_directory server type location loc handler
              (new_handler-type boost is_directory type loc config handler made) w)

  try_types-IsWellFormed :
      (server server' : Server) (types : List Bytes) (type location : Bytes) (config : NginxConfig)
      → IsWellFormed server
      → try_types boost is_directory server types type location config ≡ ok server'
      → IsWellFormed server'
  unfolding try_types
  try_types-IsWellFormed server server' [] type location config w e =
      let same : server ≡ server' = cc in subst IsWellFormed same w
  try_types-IsWellFormed server server' (t ∷ types) type location config w e =
      elim (Bool-cases (equal t type)) [
        | inl here ↦
            create_and_add_handler-IsWellFormed server server' type location config w (rw here at e)
        | inr other ↦
            try_types-IsWellFormed server server' types type location config w (rw other at e)
      ]

  add_location-IsWellFormed :
      (server server' : Server) (tokens : List Bytes) (config : NginxConfig)
      → IsWellFormed server
      → add_location boost is_directory server tokens config ≡ ok server'
      → IsWellFormed server'
  unfolding add_location
  add_location-IsWellFormed server server' (word ∷ location ∷ type ∷ []) config w e =
      elim (Bool-cases (equal word (codes "location"))) [
        | inl here ↦
            try_types-IsWellFormed server server' handler_types type location config w
              (rw here at e)
        | inr other ↦
            let e' = rw other at e in let same : server ≡ server' = cc in subst IsWellFormed same w
      ]
  add_location-IsWellFormed server server' tokens config w e =
      let same : server ≡ server' = cc in subst IsWellFormed same w

  add_locations-IsWellFormed :
      (server server' : Server) (config : NginxConfig)
      → IsWellFormed server
      → add_locations boost is_directory server config ≡ ok server'
      → IsWellFormed server'
  unfolding add_locations
  add_locations-IsWellFormed server server' nil w e =
      let same : server ≡ server' = cc in subst IsWellFormed same w
  add_locations-IsWellFormed server server' (statement tokens null rest) w e =
      add_locations-IsWellFormed server server' rest w e
  add_locations-IsWellFormed server server' (statement tokens (block child) rest) w e =
      let (next, e1, e2) =
        bind-eq-ok (add_location boost is_directory server tokens child)
          (λ s. add_locations boost is_directory s rest) e in
      add_locations-IsWellFormed next server' rest
        (add_location-IsWellFormed server next tokens child w e1) e2

  add_server-IsWellFormed :
      (server server' : Server) (tokens : List Bytes) (config : NginxConfig)
      → IsWellFormed server
      → add_server boost is_directory server tokens config ≡ ok server'
      → IsWellFormed server'
  unfolding add_server
  add_server-IsWellFormed server server' (word ∷ []) config w e =
      elim (Bool-cases (equal word (codes "server"))) [
        | inl here ↦ add_locations-IsWellFormed server server' config w (rw here at e)
        | inr other ↦
            let e' = rw other at e in let same : server ≡ server' = cc in subst IsWellFormed same w
      ]
  add_server-IsWellFormed server server' tokens config w e =
      let same : server ≡ server' = cc in subst IsWellFormed same w

  get_handlers-IsWellFormed_from :
      (server server' : Server) (config : NginxConfig)
      → IsWellFormed server
      → get_handlers boost is_directory server config ≡ ok server'
      → IsWellFormed server'
  unfolding get_handlers
  get_handlers-IsWellFormed_from server server' nil w e =
      let same : server ≡ server' = cc in subst IsWellFormed same w
  get_handlers-IsWellFormed_from server server' (statement tokens null rest) w e =
      get_handlers-IsWellFormed_from server server' rest w e
  get_handlers-IsWellFormed_from server server' (statement tokens (block child) rest) w e =
      let (next, e1, e2) =
        bind-eq-ok (add_server boost is_directory server tokens child)
          (λ s. get_handlers boost is_directory s rest) e in
      get_handlers-IsWellFormed_from next server' rest
        (add_server-IsWellFormed server next tokens child w e1) e2

  pub get_handlers-IsWellFormed :
      (config : NginxConfig) (server : Server)
      → get_handlers boost is_directory empty_server config ≡ ok server
      → IsWellFormed server
  get_handlers-IsWellFormed config server e =
      get_handlers-IsWellFormed_from empty_server server config empty_server-IsWellFormed e

  -- The tables that `getHandlers` leaves for any configuration, starting from none, agree: a handler that
  -- the server finds under a location has been allocated, and the type that is reported for it is the name
  -- of its class.
  pub get_handlers-get_handler_type :
      (config : NginxConfig) (server : Server) (location : Bytes) {pointer : Pointer}
      → get_handlers boost is_directory empty_server config ≡ ok server
      → find server.location_to_handler_ location ≡ some pointer
      → (handler : RequestHandler) × (get_elem? server.handlers pointer ≡ some handler)
        × (get_handler_type server (some pointer) ≡ type_name handler)
  unfolding get_handler_type
  get_handlers-get_handler_type config server location {pointer} e found =
      let w = get_handlers-IsWellFormed config server e in
      let live : pointer < length server.handlers =
        find-All (λ entry. entry.1 < length server.handlers) server.location_to_handler_ location
          w.pointing found in
      let (handler, there) = get_elem?-lt server.handlers pointer live in
      (
        handler,
        there,
        type_in-listed server.handlers server.type_to_handler_ pointer w.typed
            (w.complete pointer live) there,
      )
