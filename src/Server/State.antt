-- ===== src/Server/State.antt =====
-- include/server.h: the tables of `server`.
use aite_cs.Prelude.{ℕ, List, [], Bytes}
use aite_cs.Standard.Map.{Map}
use aite_cs.Handlers.{RequestHandler}

-- A pointer to a handler is its place among those allocated so far, which nothing frees while the
-- server runs.
abbrev pub Pointer : Type 0
Pointer = ℕ

-- `handlers` stands for the heap; the rest are the members.
pub record Server : Type 0 where
  pub handlers : List RequestHandler
  pub location_to_handler_ : Map Bytes Pointer
  pub requests_ : Map (Bytes × ℕ) ℕ
  pub handler_to_prefixes_ : Map Bytes (List Bytes)
  pub type_to_handler_ : Map Bytes (List Pointer)
  pub memes_ : Map Bytes (List Bytes)

abbrev pub empty_server : Server
empty_server = record {
  handlers = [];
  location_to_handler_ = [];
  requests_ = [];
  handler_to_prefixes_ = [];
  type_to_handler_ = [];
  memes_ = [];
}
