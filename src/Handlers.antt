-- ===== src/Handlers.antt =====
-- The request handlers of src/handlers, and what their constructors take from the configuration.
pub mod StaticFile
pub mod ReverseProxy
pub mod Multipart
pub mod Pages
pub mod Meme
pub mod Status
pub mod Dispatch
pub mod Kept
use aite_cs.Prelude.{
  ℕ, Bool, List, [], ◌∷◌, ◌++◌, Bytes, codes, ◌==◌, if◌then◌else◌, Result, ok, err, ◌>>=◌,
  empty_container,
}
use aite_cs.ConfigParser.Config.{NginxConfig}
use aite_cs.Utils.FilePath.{BoostPath, unquote, convert_to_absolute_path}
use aite_cs.Utils.Lookup.{config_lookup}

-- The classes derived from `RequestHandler`, with their members. The status, health and meme handlers
-- point at the server from their `init` functions on.
pub data RequestHandler : Type 0 where
  echo : RequestHandler
  static_file : Bytes → Bytes → RequestHandler
  reverse_proxy : Bytes → Bytes → Bytes → RequestHandler
  not_found : RequestHandler
  sleep : RequestHandler
  meme : Bytes → RequestHandler
  status : RequestHandler
  health : RequestHandler

-- `values[0]`; a wrong number of values is logged, and the constructor goes on.
unfoldable pub first_value : List Bytes → Result Bytes
first_value [] = err empty_container
first_value (v ∷ vs) = ok v

-- `root.back()`
unfoldable pub back : Bytes → Result ℕ
back [] = err empty_container
back (c ∷ []) = ok c
back (c ∷ cs) = back cs

-- `(root.back() != '/') ? root + "/" : root`
unfoldable pub with_slash : Bytes → Result Bytes
with_slash root = do c ← back root; ok (if c == b'/' then root else root ++ codes "/")

-- `is_directory` is `std::filesystem::is_directory`, false on an error.
module _ (boost : BoostPath) (is_directory : Bytes → Bool) where
  unfoldable pub set_root_path : Bytes → Result Bytes
  set_root_path root_path = do
    root ← convert_to_absolute_path boost root_path
    if is_directory root then with_slash root else ok root

  unfoldable pub new_static_file : Bytes → NginxConfig → Result RequestHandler
  new_static_file location config = do
    value ← first_value (config_lookup config [] (codes "root"))
    root ← set_root_path value
    ok (static_file root location)

unfoldable pub new_reverse_proxy : Bytes → NginxConfig → Result RequestHandler
new_reverse_proxy location config = do
  host ← first_value (config_lookup config [] (codes "host"))
  port ← first_value (config_lookup config [] (codes "port"))
  ok (reverse_proxy location host port)

unfoldable pub new_meme : NginxConfig → Result RequestHandler
new_meme config = do
  value ← first_value (config_lookup config [] (codes "root"))
  ok (meme (unquote value))
