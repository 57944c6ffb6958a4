-- ===== src/Standard/Map/Sorted.antt =====
-- The order of a `std::map` is kept by `assign`, and the counts in it add up.
use aite_cs.Prelude.{
  ℕ, suc, ◌+◌, true, false, [], ◌∷◌, none, some, Bytes, All, equal, ◌≡◌, refl, arith, Bool-cases,
  inl, inr, subst,
}
use aite_cs.Standard.Map.{Key, Map, find, assign, assign-All, less_bytes, bytes_key}

-- A strict total order.
pub record OrderLaws {K : Type 0} (key : Key K) : Type 0 where
  pub irreflexive : (a : K) → key.less a a ≡ false
  pub transitive : (a b c : K) → key.less a b ≡ true → key.less b c ≡ true → key.less a c ≡ true
  pub total : (a b : K) → key.eq a b ≡ false → key.less b a ≡ false → key.less a b ≡ true

less_bytes_irreflexive : (a : Bytes) → less_bytes a a ≡ false
unfolding less_bytes
less_bytes_irreflexive [] = refl
less_bytes_irreflexive (x ∷ xs) = ground (arith, less_bytes_irreflexive xs)

less_bytes_transitive :
    (a b c : Bytes) → less_bytes a b ≡ true → less_bytes b c ≡ true → less_bytes a c ≡ true
unfolding less_bytes
less_bytes_transitive [] [] c h k = cc
less_bytes_transitive [] (y ∷ b) [] h k = cc
less_bytes_transitive [] (y ∷ b) (z ∷ c) h k = refl
less_bytes_transitive (x ∷ a) [] c h k = cc
less_bytes_transitive (x ∷ a) (y ∷ b) [] h k = cc
less_bytes_transitive (x ∷ a) (y ∷ b) (z ∷ c) h k = ground (arith, less_bytes_transitive a b c)

less_bytes_total :
    (a b : Bytes) → equal a b ≡ false → less_bytes b a ≡ false → less_bytes a b ≡ true
unfolding less_bytes equal
less_bytes_total [] [] h k = cc
less_bytes_total [] (y ∷ b) h k = refl
less_bytes_total (x ∷ a) [] h k = cc
less_bytes_total (x ∷ a) (y ∷ b) h k = ground (arith, less_bytes_total a b)

pub bytes-OrderLaws : OrderLaws bytes_key
bytes-OrderLaws = record {
  irreflexive = less_bytes_irreflexive;
  transitive = less_bytes_transitive;
  total = less_bytes_total;
}

module _ {K V : Type 0} ⦃key : Key K⦄ where
  -- Every key is below those behind it.
  abbrev pub IsSorted : Map K V → Type 0
  IsSorted [] = Unit
  IsSorted ((j, w) ∷ m) = All (λ entry. key.less j entry.0 ≡ true) m × IsSorted m

  module _ (laws : OrderLaws key) where
    raise :
        (m : Map K V) (a b : K)
        → key.less a b ≡ true
        → All (λ entry. key.less b entry.0 ≡ true) m
        → All (λ entry. key.less a entry.0 ≡ true) m
    raise [] a b h _ = tt
    raise ((j, w) ∷ m) a b h (p, ps) = (laws.transitive a b j h p, raise m a b h ps)

    pub find-below :
        (m : Map K V) (k : K) → All (λ entry. key.less k entry.0 ≡ true) m → find m k ≡ none
    unfolding find
    find-below [] k _ = refl
    find-below ((j, w) ∷ m) k (p, ps) =
        ground (arith, key.eq_iff j k, laws.irreflexive k, find-below m k ps)

    pub assign-IsSorted : (m : Map K V) (k : K) (v : V) → IsSorted m → IsSorted (assign m k v)
    unfolding assign
    assign-IsSorted [] k v _ = (tt, tt)
    assign-IsSorted ((j, w) ∷ m) k v (p, ps) = elim (Bool-cases (key.eq j k)) [
      | inl same ↦
          rw same (
            subst (λ i. All (λ entry. key.less i entry.0 ≡ true) m) ((key.eq_iff j k).0 same) p,
            ps,
          )
      | inr other ↦ elim (Bool-cases (key.less k j)) [
        | inl before ↦ rw (other, before) ((before, raise m k j before p), (p, ps))
        | inr behind ↦
            rw (other, behind)
              (
                assign-All (λ entry. key.less j entry.0 ≡ true) m k v p
                    (laws.total j k other behind),
                assign-IsSorted m k v ps,
              )
      ]
    ]

-- The sum of the counts.
abbrev pub sum_counts : {K : Type 0} → Map K ℕ → ℕ
sum_counts [] = 0
sum_counts ((_, n) ∷ m) = n + sum_counts m

module _ {K : Type 0} ⦃key : Key K⦄ where
  abbrev pub count : Map K ℕ → K → ℕ
  count m k = elim (find m k) [ none ↦ 0 | some n ↦ n ]

  pub sum_counts-assign :
      (laws : OrderLaws key) (m : Map K ℕ) (k : K)
      → IsSorted m
      → sum_counts (assign m k (suc (count m k))) ≡ suc (sum_counts m)
  unfolding find assign
  sum_counts-assign laws [] k _ = refl
  sum_counts-assign laws ((j, w) ∷ m) k (p, ps) = elim (Bool-cases (key.eq j k)) [
    | inl same ↦ rw (count, same) (omega arith)
    | inr other ↦ elim (Bool-cases (key.less k j)) [
      | inl before ↦
          rw (count, other, before, find-below laws m k (raise laws m k j before p)) (omega arith)
      | inr behind ↦ rw (count, other, behind) (omega (arith, sum_counts-assign laws m k ps))
    ]
  ]
