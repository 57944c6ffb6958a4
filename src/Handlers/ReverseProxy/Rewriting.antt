-- ===== src/Handlers/ReverseProxy/Rewriting.antt =====
-- What the rewriting of a body changes.
use aite_cs.Prelude.{
  ℕ, zero, suc, ◌≤◌, ◌<◌, true, false, [], ◌∷◌, ◌++◌, Option, none, some, Bytes, length,
  length-append, length-nonempty, drop, ◌≡◌, ◌≢◌, refl, ap, ◌∙◌, arith, append_assoc, Bool-cases,
  inl, inr,
}
use aite_cs.Handlers.ReverseProxy.{
  is_prefix, add_front, find_split, starts_slash, replace_loop, replaced_absolute_paths,
}

is_prefix-append : (from rest : Bytes) → is_prefix from (from ++ rest) ≡ true
is_prefix-append [] rest = refl
is_prefix-append (c ∷ cs) rest = ground (arith, is_prefix-append cs rest)

is_prefix-drop :
    (from text : Bytes) → is_prefix from text ≡ true → text ≡ from ++ drop (length from) text
is_prefix-drop [] text h = refl
is_prefix-drop (c ∷ cs) [] h = cc
is_prefix-drop (c ∷ cs) (d ∷ ds) h = ground (arith, is_prefix-drop cs ds)

-- `text` has its first occurrence of `from` between `before` and `after`.
pub record IsFirst (from text before after : Bytes) : Type 0 where
  pub splits : text ≡ before ++ (from ++ after)
  pub earliest : (xs ys : Bytes) → text ≡ xs ++ (from ++ ys) → length before ≤ length xs

abbrev pub IsAbsent : Bytes → Bytes → Type 0
IsAbsent from text = (xs ys : Bytes) → text ≢ xs ++ (from ++ ys)

-- What `find` says, told by occurrences.
abbrev Located : Bytes → Bytes → Option (Bytes × Bytes) → Type 0
Located from text none = IsAbsent from text
Located from text (some (before, after)) = IsFirst from text before after

-- An occurrence in a text that does not begin with one stands in its tail.
in_tail :
    (from : Bytes) (c : ℕ) (cs xs ys : Bytes)
    → is_prefix from (c ∷ cs) ≡ false
    → c ∷ cs ≡ xs ++ (from ++ ys)
    → (x : ℕ) × (xs' : Bytes) × (xs ≡ x ∷ xs') × (cs ≡ xs' ++ (from ++ ys))
in_tail from c cs [] ys other e =
    let t : is_prefix from (c ∷ cs) ≡ true = rw e (is_prefix-append from ys) in absurd (cc)
in_tail from c cs (x ∷ xs) ys other e = (x, xs, refl, cc)

add_front-Located :
    (from : Bytes) (c : ℕ) (cs : Bytes) (o : Option (Bytes × Bytes))
    → is_prefix from (c ∷ cs) ≡ false
    → Located from cs o
    → Located from (c ∷ cs) (add_front c o)
add_front-Located from c cs none other absent =
    λ xs ys e. let (x, xs', _, e') = in_tail from c cs xs ys other e in absent xs' ys e'
add_front-Located from c cs (some (before, after)) other f = record {
  splits = ap (◌∷◌ c) f.splits;
  earliest = λ xs ys e.
      let (x, xs', same, e') = in_tail from c cs xs ys other e in
      rw same (omega (arith, f.earliest xs' ys e'));
}

find_split-Located : (from text : Bytes) → from ≢ [] → Located from text (find_split from text)
unfolding find_split
find_split-Located [] text ne = absurd (ne refl)
find_split-Located (f ∷ from) [] ne =
    λ xs ys e. let l = ap length e in omega (arith, l, length-append xs (f ∷ (from ++ ys)))
find_split-Located (f ∷ from) (c ∷ cs) ne = elim (Bool-cases (is_prefix (f ∷ from) (c ∷ cs))) [
  | inl here ↦ rw here (record {
    splits = is_prefix-drop (f ∷ from) (c ∷ cs) here;
    earliest = λ xs ys e. omega arith;
  })
  | inr other ↦ rw other (
      add_front-Located (f ∷ from) c cs (find_split (f ∷ from) cs) other
        (find_split-Located (f ∷ from) cs ne))
]

-- What the rewriting of `from` to `to` makes of a text: every occurrence is replaced, from the left and
-- not counting what was put in, but for those in front of a slash.
pub data Rewritten (from to : Bytes) : Bytes → Bytes → Type 0 where
  rest : {text : Bytes} → IsAbsent from text → Rewritten from to text text
  kept :
      {text before after result : Bytes}
      → IsFirst from text before after
      → starts_slash after ≡ true
      → Rewritten from to after result
      → Rewritten from to text (before ++ (from ++ result))
  changed :
      {text before after result : Bytes}
      → IsFirst from text before after
      → starts_slash after ≡ false
      → Rewritten from to after result
      → Rewritten from to text (before ++ (to ++ result))

module _ (from to : Bytes) (ne : from ≢ []) where
  after-shorter :
      {text before after : Bytes} → IsFirst from text before after → length after < length text
  after-shorter {text} {before} {after} f =
      let l = ap length f.splits in
      omega (
        arith,
        l,
        length-append before (from ++ after),
        length-append from after,
        length-nonempty from ne,
      )

  -- What a run of the loop leaves behind `done`.
  abbrev Replaces : ℕ → Bytes → Bytes → Type 0
  Replaces fuel done text =
      (result : Bytes) × (replace_loop fuel from to done text ≡ some (done ++ result))
      × Rewritten from to text result

  replace_loop-Rewritten :
      (fuel : ℕ) (done text : Bytes) → length text < fuel → Replaces fuel done text
  unfolding replace_loop
  replace_loop-Rewritten zero done text h = absurd (omega arith)
  replace_loop-Rewritten (suc fuel) done text h =
      go (find_split from text) refl (find_split-Located from text ne)
        (λ done' after l. replace_loop-Rewritten fuel done' after l)
    where
      go :
          (o : Option (Bytes × Bytes))
          → find_split from text ≡ o
          → Located from text o
          → ((done' after : Bytes) → length after < fuel → Replaces fuel done' after)
          → Replaces (suc fuel) done text
      go none e absent ih = (text, rw (replace_loop, e) refl, rest absent)
      go (some (before, after)) e first ih = elim (Bool-cases (starts_slash after)) [
        | inl slash ↦
            let (r, run, w) =
              ih (done ++ (before ++ from)) after (omega (arith, after-shorter first)) in
            (
              before ++ (from ++ r),
              rw (replace_loop, e, slash) (run ∙ ap some (simp append_assoc)),
              kept first slash w,
            )
        | inr other ↦
            let (r, run, w) =
              ih (done ++ (before ++ to)) after (omega (arith, after-shorter first)) in
            (
              before ++ (to ++ r),
              rw (replace_loop, e, other) (run ∙ ap some (simp append_assoc)),
              changed first other w,
            )
      ]

-- The rewriting of a body ends, and replaces every occurrence of the prefix and the separator that is not
-- followed by a slash by the prefix, the location and the separator; all else stays. Occurrences are
-- counted from the left and do not overlap, and the prefix and the separator are not both empty.
pub replaced_absolute_paths-Rewritten :
    (location body prefix separator : Bytes)
    → prefix ++ separator ≢ []
    → (result : Bytes) × (replaced_absolute_paths location body prefix separator ≡ some result)
      × Rewritten (prefix ++ separator) (prefix ++ (location ++ separator)) body result
unfolding replaced_absolute_paths
replaced_absolute_paths-Rewritten location body prefix separator ne =
    replace_loop-Rewritten (prefix ++ separator) (prefix ++ (location ++ separator)) ne
      (suc (length body)) [] body (omega arith)
