-- ===== src/Utils/FilePath/Canonical.antt =====
-- The results of `convertToAbsolutePath`: names between single slashes, and nothing to simplify.
use aite_cs.Prelude.{
  List, [], ◌∷◌, ◌++◌, Bytes, equal, equal_iff, codes, All, All-append, ◌==◌, ok, ◌≡◌, ◌≢◌, refl,
  sym, ap, ◌∙◌, arith, bind-eq-ok, Bool-cases, inl, inr, append-nil, append_assoc, subst,
}
use aite_cs.Utils.FilePath.{
  BoostPath, unquote, pop_back, add_component, walk, join, convert_to_absolute_path,
}
use aite_cs.Utils.FilePath.Normal.{components, fold, walk-fold, parent, here, empty, name, Kind-of}

abbrev pub NoSlash : Bytes → Type 0
NoSlash = All (λ c. c ≢ b'/')

-- A name that stays inside its directory.
abbrev pub IsComponent : Bytes → Type 0
IsComponent dir = (dir ≢ []) × (dir ≢ codes ".") × (dir ≢ codes "..") × NoSlash dir

components-NoSlash : (cs dir : Bytes) → NoSlash dir → All NoSlash (components dir cs)
unfolding components
components-NoSlash [] dir h = (h, tt)
components-NoSlash (c ∷ cs) dir h = elim (Bool-cases (c == b'/')) [
  | inl slash ↦ rw slash (h, components-NoSlash cs [] tt)
  | inr other ↦
      rw other
        (components-NoSlash cs (dir ++ c ∷ []) (All-append _ dir (c ∷ []) h (ground arith, tt)))
]

pop_back-IsComponent :
    (xs ys : List Bytes) → All IsComponent xs → pop_back xs ≡ ok ys → All IsComponent ys
unfolding pop_back
pop_back-IsComponent [] ys h e = absurd (cc)
pop_back-IsComponent (x ∷ []) ys h e = let same : [] ≡ ys = cc in subst (All IsComponent) same tt
pop_back-IsComponent (x ∷ y ∷ xs) ys (h, hs) e =
    let (zs, e1, e2) = bind-eq-ok (pop_back (y ∷ xs)) (λ z. ok (x ∷ z)) e in
    let same : x ∷ zs ≡ ys = cc in
    subst (All IsComponent) same (h, pop_back-IsComponent (y ∷ xs) zs hs e1)

add_component-IsComponent :
    (comps ys : List Bytes) (dir : Bytes)
    → All IsComponent comps
    → NoSlash dir
    → add_component comps dir ≡ ok ys
    → All IsComponent ys
unfolding add_component
add_component-IsComponent comps ys dir h k e = elim (Kind-of dir) [
  | parent p ↦ pop_back-IsComponent comps ys h (rw p at e)
  | here p q ↦ subst (All IsComponent) (ground arith) h
  | empty p q r ↦ subst (All IsComponent) (ground arith) h
  | name p q r ↦
      let plain : IsComponent dir = (
        ground (arith, equal_iff dir []),
        ground (arith, equal_iff dir (codes ".")),
        ground (arith, equal_iff dir (codes "..")),
        k,
      ) in
      let same : comps ++ dir ∷ [] ≡ ys = ground arith in
      subst (All IsComponent) same (All-append IsComponent comps (dir ∷ []) h (plain, tt))
]

fold-IsComponent :
    (dirs comps ys : List Bytes)
    → All IsComponent comps
    → All NoSlash dirs
    → fold comps dirs ≡ ok ys
    → All IsComponent ys
unfolding fold
fold-IsComponent [] comps ys h _ e = subst (All IsComponent) (cc) h
fold-IsComponent (dir ∷ dirs) comps ys h (k, ks) e =
    let (next, e1, e2) = bind-eq-ok (add_component comps dir) (λ c. fold c dirs) e in
    fold-IsComponent dirs next ys (add_component-IsComponent comps next dir h k e1) ks e2

-- Every result is a list of names, each behind a slash: none is empty, "." or "..", and none holds a
-- slash.
pub convert_to_absolute_path-IsComponent :
    (boost : BoostPath) (path result : Bytes)
    → convert_to_absolute_path boost path ≡ ok result
    → (dirs : List Bytes) × (result ≡ join dirs) × All IsComponent dirs
unfolding convert_to_absolute_path
convert_to_absolute_path-IsComponent boost path result e =
    let full = boost.system_complete (unquote path) in
    let (comps, e1, e2) = bind-eq-ok (walk [] [] full) (λ c. ok (join c)) e in
    (
      comps,
      cc,
      fold-IsComponent (components [] full) [] comps tt (components-NoSlash full [] tt)
          (sym (walk-fold full [] []) ∙ e1),
    )

components-append :
    (cs dir rest : Bytes) → NoSlash cs → components dir (cs ++ rest) ≡ components (dir ++ cs) rest
unfolding components
components-append [] dir rest h = rw append-nil
components-append (c ∷ cs) dir rest (h, hs) =
    let step : components dir (c ∷ (cs ++ rest)) ≡ components (dir ++ c ∷ []) (cs ++ rest) =
      ground arith in
    step ∙ components-append cs (dir ++ c ∷ []) rest hs ∙ rw append_assoc

components-join :
    (dirs : List Bytes) (dir : Bytes)
    → All IsComponent dirs
    → components dir (join dirs) ≡ dir ∷ dirs
unfolding components
components-join [] dir h = refl
components-join (d ∷ dirs) dir (h, hs) =
    ap (◌∷◌ dir) (components-append d [] (join dirs) h.3 ∙ components-join dirs d hs)

fold-names : (dirs comps : List Bytes) → All IsComponent dirs → fold comps dirs ≡ ok (comps ++ dirs)
unfolding fold add_component
fold-names [] comps h = rw append-nil
fold-names (d ∷ dirs) comps (h, hs) =
    let step : fold comps (d ∷ dirs) ≡ fold (comps ++ d ∷ []) dirs =
      ground (arith, equal_iff d [], equal_iff d (codes "."), equal_iff d (codes "..")) in
    step ∙ fold-names dirs (comps ++ d ∷ []) hs ∙ rw append_assoc

fold-root : (dirs : List Bytes) → fold [] ([] ∷ dirs) ≡ fold [] dirs
unfolding fold add_component equal
fold-root dirs = refl

-- What the code relies on of `system_complete`: a path with a root is complete already.
abbrev pub KeepsAbsolute : BoostPath → Type 0
KeepsAbsolute boost = (rest : Bytes) → boost.system_complete (b'/' ∷ rest) ≡ b'/' ∷ rest

convert_join :
    (boost : BoostPath) (d : Bytes) (dirs : List Bytes)
    → KeepsAbsolute boost
    → All IsComponent (d ∷ dirs)
    → convert_to_absolute_path boost (join (d ∷ dirs)) ≡ ok (join (d ∷ dirs))
unfolding convert_to_absolute_path unquote
convert_join boost d dirs law h =
    rw
      (
        law (d ++ join dirs),
        walk-fold (join (d ∷ dirs)) [] [],
        components-join (d ∷ dirs) [] h,
        fold-root (d ∷ dirs),
        fold-names (d ∷ dirs) [] h,
      )
      refl

-- A path that was converted stays as it is when it is converted again, unless it is the root, which is
-- written as the empty string.
pub convert_to_absolute_path_idempotent :
    (boost : BoostPath) (path result : Bytes)
    → KeepsAbsolute boost
    → convert_to_absolute_path boost path ≡ ok result
    → result ≢ []
    → convert_to_absolute_path boost result ≡ ok result
convert_to_absolute_path_idempotent boost path result law e ne =
    go (convert_to_absolute_path-IsComponent boost path result e)
  where
    go :
        ((dirs : List Bytes) × (result ≡ join dirs) × All IsComponent dirs)
        → convert_to_absolute_path boost result ≡ ok result
    go ([], same, h) = absurd (ne same)
    go (d ∷ dirs, same, h) = rw same (convert_join boost d dirs law h)
