-- ===== src/Tests/Paths.antt =====
-- The theorems on src/utils.cc, on a small configuration and on paths of a POSIX system.
use aite_cs.Prelude.{
  [], ◌∷◌, none, ok, err, empty_container, ◌≡◌, ◌↔◌, refl, arith, Bytes, All, codes, equal, List,
}
use aite_cs.ConfigParser.Config.{NginxConfig, nil, statement, null, block}
use aite_cs.Standard.Ints.{IsDecimal}
use aite_cs.Utils.Lookup.{config_lookup, Finds, field, into, config_lookup-Finds}
use aite_cs.Utils.FilePath.{join, walk, add_component, pop_back, unquote, convert_to_absolute_path}
use aite_cs.Utils.FilePath.Normal.{components, descend, convert_to_absolute_path-err}
use aite_cs.Utils.FilePath.Canonical.{
  IsComponent, convert_to_absolute_path-IsComponent, convert_to_absolute_path_idempotent,
}
use aite_cs.Tests.Posix.{posix, posix-KeepsAbsolute}

-- A server with a location and a port.
abbrev server_block : NginxConfig
server_block =
    statement (codes "location" ∷ codes "/x" ∷ []) (block nil)
      (statement (codes "port" ∷ codes "80" ∷ []) null nil)

abbrev with_server : NginxConfig
with_server =
    statement (codes "pid" ∷ codes "1" ∷ []) null
      (statement (codes "server" ∷ []) (block server_block) nil)

port_found : Finds (codes "port") with_server (codes "server" ∷ []) (codes "80" ∷ [])
port_found =
    into [] ((codes "pid" ∷ codes "1" ∷ [], null) ∷ []) [] refl (tt, tt)
      (field ((codes "location" ∷ codes "/x" ∷ [], block nil) ∷ []) [] refl (tt, tt))

config_lookup-Finds_example :
    config_lookup with_server (codes "server" ∷ []) (codes "port") ≡ codes "80" ∷ []
config_lookup-Finds_example =
    config_lookup-Finds (codes "port") with_server (codes "server" ∷ []) (codes "80" ∷ [])
      port_found

eighty-IsDecimal : IsDecimal (codes "80")
eighty-IsDecimal = (λ e. cc, (refl, (refl, tt)), omega arith)

convert_to_absolute_path-err_example :
    (convert_to_absolute_path posix (codes "/a/../..") ≡ err empty_container)
    ↔ (descend 0 (components [] (posix.system_complete (unquote (codes "/a/../..")))) ≡ none)
convert_to_absolute_path-err_example = convert_to_absolute_path-err posix (codes "/a/../..")

quoted_run : convert_to_absolute_path posix (codes "\"/a/./../b//c\"") ≡ ok (codes "/b/c")
unfolding convert_to_absolute_path walk add_component pop_back unquote equal
quoted_run = refl

escape_run : convert_to_absolute_path posix (codes "/a/../..") ≡ err empty_container
unfolding convert_to_absolute_path walk add_component pop_back unquote equal
escape_run = refl

convert_to_absolute_path-IsComponent_example :
    (dirs : List Bytes) × (codes "/b/c" ≡ join dirs) × All IsComponent dirs
convert_to_absolute_path-IsComponent_example =
    convert_to_absolute_path-IsComponent posix (codes "\"/a/./../b//c\"") (codes "/b/c") quoted_run

convert_to_absolute_path_idempotent_example :
    convert_to_absolute_path posix (codes "/b/c") ≡ ok (codes "/b/c")
convert_to_absolute_path_idempotent_example =
    convert_to_absolute_path_idempotent posix (codes "\"/a/./../b//c\"") (codes "/b/c")
      posix-KeepsAbsolute quoted_run (λ e. cc)
