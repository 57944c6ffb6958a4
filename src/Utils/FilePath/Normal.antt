-- ===== src/Utils/FilePath/Normal.antt =====
-- What `convertToAbsolutePath` returns: when it faults, what its results look like, and that it leaves
-- them as they are.
use aite_cs.Prelude.{
  ℕ, zero, suc, true, false, List, [], ◌∷◌, ◌++◌, Option, none, some, Bytes, equal, length, codes,
  ◌==◌, if◌then◌else◌, Result, Fault, ok, err, ◌>>=◌, empty_container, ◌≡◌, ◌↔◌, refl, sym, ap, ◌∙◌,
  arith, Bool-cases, inl, inr,
}
use aite_cs.Utils.FilePath.{
  BoostPath, unquote, pop_back, add_component, walk, join, convert_to_absolute_path,
}

-- The pieces between the slashes.
unfoldable pub components : Bytes → Bytes → List Bytes
components dir [] = dir ∷ []
components dir (c ∷ cs) =
    let closed = dir ∷ components [] cs in
    let longer = components (dir ++ c ∷ []) cs in if c == b'/' then closed else longer

unfoldable pub fold : List Bytes → List Bytes → Result (List Bytes)
fold path_comps [] = ok path_comps
fold path_comps (dir ∷ dirs) = add_component path_comps dir >>= λ comps. fold comps dirs

bind-ok : (m : Result (List Bytes)) → (m >>= λ x. ok x) ≡ m
bind-ok (ok x) = refl
bind-ok (err e) = refl

pub walk-fold :
    (cs dir : Bytes) (path_comps : List Bytes)
    → walk path_comps dir cs ≡ fold path_comps (components dir cs)
unfolding walk components fold
walk-fold [] dir comps = sym (bind-ok (add_component comps dir))
walk-fold (c ∷ cs) dir comps = elim (Bool-cases (c == b'/')) [
  | inl slash ↦ rw slash (ap (λ k. add_component comps dir >>= k) (λ i x. walk-fold cs [] x i))
  | inr other ↦ rw other (walk-fold cs (dir ++ c ∷ []) comps)
]

-- How deep the components lead from a directory at depth `depth`; `none` when they lead above the root.
abbrev pub descend : ℕ → List Bytes → Option ℕ
descend depth [] = some depth
descend zero (dir ∷ dirs) =
    if equal dir (codes "..")
    then none
    else (let deeper = descend 1 dirs in
        let same = descend zero dirs in
        if equal dir (codes ".") then same else if equal dir [] then same else deeper)
descend (suc depth) (dir ∷ dirs) =
    let up = descend depth dirs in
    let same = descend (suc depth) dirs in
    let deeper = descend (suc (suc depth)) dirs in
    if equal dir (codes "..")
    then up
    else if equal dir (codes ".")
    then same
    else if equal dir []
    then same
    else deeper

pop_back-length :
    (xs : List Bytes) {n : ℕ}
    → length xs ≡ suc n
    → (ys : List Bytes) × (pop_back xs ≡ ok ys) × (length ys ≡ n)
unfolding pop_back
pop_back-length [] h = absurd (omega arith)
pop_back-length (x ∷ []) h = ([], refl, omega arith)
pop_back-length (x ∷ y ∷ xs) {n} h =
    let (ys, e, l) = pop_back-length (y ∷ xs) {n = length xs} refl in (x ∷ ys, rw e, omega arith)

length-concat : (xs : List Bytes) (x : Bytes) → length (xs ++ x ∷ []) ≡ suc (length xs)
length-concat [] x = refl
length-concat (y ∷ xs) x = ap suc (length-concat xs x)

-- The loop keeps as many components as the depth says, and pops an empty vector where there is none.
abbrev Tracks : Option ℕ → Result (List Bytes) → Type 0
Tracks none r = r ≡ err empty_container
Tracks (some n) r = (comps : List Bytes) × (r ≡ ok comps) × (length comps ≡ n)

pop_back-nil : (xs : List Bytes) → length xs ≡ 0 → pop_back xs ≡ err empty_container
unfolding pop_back
pop_back-nil [] h = refl
pop_back-nil (x ∷ xs) h = absurd (omega arith)

-- The three kinds of component.
pub data Kind (dir : Bytes) : Type 0 where
  parent : equal dir (codes "..") ≡ true → Kind dir
  here : equal dir (codes "..") ≡ false → equal dir (codes ".") ≡ true → Kind dir
  empty :
      equal dir (codes "..") ≡ false
      → equal dir (codes ".") ≡ false
      → equal dir [] ≡ true
      → Kind dir
  name :
      equal dir (codes "..") ≡ false
      → equal dir (codes ".") ≡ false
      → equal dir [] ≡ false
      → Kind dir

pub Kind-of : (dir : Bytes) → Kind dir
Kind-of dir = elim (Bool-cases (equal dir (codes ".."))) [
  | inl p ↦ parent p
  | inr p ↦ elim (Bool-cases (equal dir (codes "."))) [
    | inl q ↦ here p q
    | inr q ↦ elim (Bool-cases (equal dir [])) [ inl r ↦ empty p q r | inr r ↦ name p q r ]
  ]
]

fold-Tracks :
    (dirs comps : List Bytes) (n : ℕ) → length comps ≡ n → Tracks (descend n dirs) (fold comps dirs)
unfolding fold add_component
fold-Tracks [] comps n h = (comps, refl, h)
fold-Tracks (dir ∷ dirs) comps zero h = elim (Kind-of dir) [
  | parent p ↦ rw (p, pop_back-nil comps h) refl
  | here p q ↦ rw (p, q) (fold-Tracks dirs comps zero h)
  | empty p q r ↦ rw (p, q, r) (fold-Tracks dirs comps zero h)
  | name p q r ↦
      rw (p, q, r) (fold-Tracks dirs (comps ++ dir ∷ []) 1 (length-concat comps dir ∙ ap suc h))
]
fold-Tracks (dir ∷ dirs) comps (suc n) h = elim (Kind-of dir) [
  | parent p ↦ let (ys, e, l) = pop_back-length comps h in rw (p, e) (fold-Tracks dirs ys n l)
  | here p q ↦ rw (p, q) (fold-Tracks dirs comps (suc n) h)
  | empty p q r ↦ rw (p, q, r) (fold-Tracks dirs comps (suc n) h)
  | name p q r ↦
      rw (p, q, r)
        (fold-Tracks dirs (comps ++ dir ∷ []) (suc (suc n)) (length-concat comps dir ∙ ap suc h))
]

Tracks-err :
    (o : Option ℕ) (r : Result (List Bytes)) → Tracks o r → (r ≡ err empty_container) ↔ (o ≡ none)
Tracks-err none r t = (λ _. refl, λ _. t)
Tracks-err (some n) r (comps, e, l) = (λ h. cc, λ h. cc)

bind_join-err : (m : Result (List Bytes)) {e : Fault} → (m >>= λ c. ok (join c)) ≡ err e → m ≡ err e
bind_join-err (ok c) h = cc
bind_join-err (err f) h = cc

-- The conversion runs into undefined behaviour exactly when the components of the completed path, read
-- from the root, lead above it: it then takes the last element off an empty vector.
pub convert_to_absolute_path-err :
    (boost : BoostPath) (path : Bytes)
    → (convert_to_absolute_path boost path ≡ err empty_container)
      ↔ (descend 0 (components [] (boost.system_complete (unquote path))) ≡ none)
unfolding convert_to_absolute_path
convert_to_absolute_path-err boost path =
    let full = boost.system_complete (unquote path) in
    let (to, from) = Tracks-err _ _ (fold-Tracks (components [] full) [] 0 refl) in
    (
      λ e. to (sym (walk-fold full [] []) ∙ bind_join-err _ e),
      λ o. rw (walk-fold full [] [], from o) refl,
    )
