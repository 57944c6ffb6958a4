-- ===== src/Server/Routing.antt =====
-- src/server.cc: `get_request_handler`.
pub mod Longest
use aite_cs.Prelude.{
  ℕ, zero, suc, Bool, [], Option, none, some, Bytes, length, if◌then◌else◌, Result, ok, ◌>>=◌,
}
use aite_cs.Server.State.{Pointer, Server}
use aite_cs.Standard.Map.{Map, find, bytes_key}
use aite_cs.Utils.FilePath.{BoostPath, convert_to_absolute_path}

-- What the loop ends with: a pointer, which is `none` for null, or no answer for want of fuel.
pub data Search : Type 0 where
  returned : Option Pointer → Search
  out_of_fuel : Search

-- The `if` in the loop.
abbrev pub found_or : Option Pointer → Search → Search
found_or (some handler) parents = returned (some handler)
found_or none parents = parents

module _ (boost : BoostPath) where
  -- The loop over the path and its parents, and the look at the root behind it.
  unfoldable pub search_parents : Map Bytes Pointer → ℕ → Bytes → Search
  search_parents locations zero uri = out_of_fuel
  search_parents locations (suc fuel) uri =
      let parents = search_parents locations fuel (boost.parent_path uri) in
      if boost.has_parent_path uri
      then found_or (find locations uri) parents
      else returned (find locations [])

  -- One round for each character of the path, and one more.
  unfoldable pub get_request_handler : Server → Bytes → Result Search
  get_request_handler server request_uri = do
    uri ← convert_to_absolute_path boost request_uri
    ok (search_parents server.location_to_handler_ (suc (length uri)) uri)
