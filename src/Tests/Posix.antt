-- ===== src/Tests/Posix.antt =====
-- Paths of a POSIX system whose working directory is the root, as an instance of what the code uses of
-- `boost::filesystem::path`.
use aite_cs.Prelude.{
  Bool, true, false, not, List, [], ◌∷◌, ◌++◌, Option, none, some, ◌≡◌, ◌≢◌, refl, arith, Bytes,
  codes, ◌==◌, if◌then◌else◌,
}
use aite_cs.Utils.FilePath.{BoostPath}
use aite_cs.Utils.FilePath.Canonical.{IsComponent, NoSlash, KeepsAbsolute}
use aite_cs.Server.Routing.Longest.{path_of, ParentLaws}

-- What stands before the last slash.
abbrev pub cut : Bytes → Option Bytes
cut [] = none
cut (c ∷ cs) = elim (cut cs) [
  | some before ↦ some (c ∷ before)
  | none ↦ if c == b'/' then some [] else none
]

abbrev pub above : Option Bytes → Bytes
above none = []
above (some []) = codes "/"
above (some (c ∷ cs)) = c ∷ cs

abbrev pub parent_of : Bytes → Bytes
parent_of [] = []
parent_of (c ∷ []) = []
parent_of (c ∷ d ∷ cs) = above (cut (c ∷ d ∷ cs))

abbrev pub complete : Bytes → Bytes
complete [] = codes "/"
complete (c ∷ cs) = if c == b'/' then c ∷ cs else b'/' ∷ c ∷ cs

abbrev pub is_empty : Bytes → Bool
is_empty [] = true
is_empty (_ ∷ _) = false

abbrev pub posix : BoostPath
posix = record {
  system_complete = complete;
  has_parent_path = λ p. not (is_empty (parent_of p));
  parent_path = parent_of;
  extension = λ p. [];
  relative = λ p base. some p;
}

cut-NoSlash : (d : Bytes) → NoSlash d → cut d ≡ none
cut-NoSlash [] h = refl
cut-NoSlash (c ∷ d) (h, hs) = rw (cut, cut-NoSlash d hs) (ground arith)

cut-append : (p d : Bytes) → NoSlash d → cut (p ++ b'/' ∷ d) ≡ some p
cut-append [] d h = rw (cut, cut-NoSlash d h) refl
cut-append (c ∷ p) d h = rw (cut, cut-append p d h) refl

parent_of-long : (p d : Bytes) → d ≢ [] → parent_of (p ++ b'/' ∷ d) ≡ above (cut (p ++ b'/' ∷ d))
parent_of-long [] [] h = absurd (h refl)
parent_of-long [] (c ∷ d) h = refl
parent_of-long (c ∷ []) d h = refl
parent_of-long (c ∷ x ∷ p) d h = refl

above-append : (p d : Bytes) → above (some (p ++ b'/' ∷ d)) ≡ p ++ b'/' ∷ d
above-append [] d = refl
above-append (c ∷ p) d = refl

parent_of-path_of :
    (d : Bytes) (outer : List Bytes)
    → IsComponent d
    → parent_of (path_of (d ∷ outer)) ≡ above (some (path_of outer))
parent_of-path_of d outer h =
    rw (parent_of-long (path_of outer) d h.0, cut-append (path_of outer) d h.3) refl

above-nonempty : (outer : List Bytes) → is_empty (above (some (path_of outer))) ≡ false
above-nonempty [] = refl
above-nonempty (d ∷ outer) = nonempty (path_of outer)
  where
    nonempty : (p : Bytes) → is_empty (above (some (p ++ b'/' ∷ d))) ≡ false
    nonempty [] = refl
    nonempty (c ∷ p) = refl

pub posix-ParentLaws : ParentLaws posix
posix-ParentLaws = record {
  has_parent = λ d outer h. rw (parent_of-path_of d outer h.0, above-nonempty outer) refl;
  parent = λ d e outer h. rw (parent_of-path_of d (e ∷ outer) h.0) (above-append (path_of outer) e);
  parent_top = λ d h. parent_of-path_of d [] h;
  root_has_none = refl;
  empty_has_none = refl;
}

pub posix-KeepsAbsolute : KeepsAbsolute posix
posix-KeepsAbsolute rest = refl
