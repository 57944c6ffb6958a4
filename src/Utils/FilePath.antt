-- ===== src/Utils/FilePath.antt =====
-- `convertToAbsolutePath` of src/utils.cc.
pub mod Normal
pub mod Canonical
use aite_cs.Prelude.{
  Option, ℕ, suc, ◌+◌, ◌-◌, Bool, true, false, ◌&&◌, List, [], ◌∷◌, ◌++◌, Bytes, equal, length,
  take, drop, codes, ◌==◌, if◌then◌else◌, Result, ok, err, ◌>>=◌, empty_container,
}

-- What the code calls of `boost::filesystem::path`, on paths as strings.
pub record BoostPath : Type 0 where
  pub system_complete : Bytes → Bytes
  pub has_parent_path : Bytes → Bool
  pub parent_path : Bytes → Bytes
  pub extension : Bytes → Bytes
  pub relative : Bytes → Bytes → Option Bytes

abbrev pub starts_quoted : Bytes → Bool
starts_quoted [] = false
starts_quoted (c ∷ _) = c == b'"'

abbrev pub ends_quoted : Bytes → Bool
ends_quoted [] = false
ends_quoted (c ∷ []) = c == b'"'
ends_quoted (c ∷ cs) = ends_quoted cs

-- Removes enclosing quotes. On a single quote `length() - 2` wraps around, and `substr` clips it to
-- the empty rest.
unfoldable pub unquote : Bytes → Bytes
unquote path =
    if starts_quoted path && ends_quoted path then take (length path - 2) (drop 1 path) else path

-- `path_comps.pop_back()`
unfoldable pub pop_back : List Bytes → Result (List Bytes)
pop_back [] = err empty_container
pop_back (x ∷ []) = ok []
pop_back (x ∷ xs) = do xs' ← pop_back xs; ok (x ∷ xs')

-- What the loop does with one component.
unfoldable pub add_component : List Bytes → Bytes → Result (List Bytes)
add_component path_comps dir =
    if equal dir (codes "..")
    then pop_back path_comps
    else if equal dir (codes ".")
    then ok path_comps
    else if equal dir []
    then ok path_comps
    else ok (path_comps ++ dir ∷ [])

-- The loop over the characters; `dir` is what has been read of a component.
unfoldable pub walk : List Bytes → Bytes → Bytes → Result (List Bytes)
walk path_comps dir [] = add_component path_comps dir
walk path_comps dir (c ∷ cs) =
    let closed = add_component path_comps dir >>= λ comps. walk comps [] cs in
    let longer = walk path_comps (dir ++ c ∷ []) cs in if c == b'/' then closed else longer

-- `path += "/" + dir` for each component.
abbrev pub join : List Bytes → Bytes
join [] = []
join (dir ∷ dirs) = b'/' ∷ (dir ++ join dirs)

unfoldable pub convert_to_absolute_path : BoostPath → Bytes → Result Bytes
convert_to_absolute_path boost path = do
  path_comps ← walk [] [] (boost.system_complete (unquote path))
  ok (join path_comps)
