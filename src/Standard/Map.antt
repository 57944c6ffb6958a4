-- ===== src/Standard/Map.antt =====
-- `std::map`, as a list of pairs in the order of the keys.
pub mod Sorted
use aite_cs.Prelude.{
  Bool, true, false, ◌||◌, ◌&&◌, List, [], ◌∷◌, Option, none, some, Bytes, equal, equal_iff, ltb,
  ◌==◌, if◌then◌else◌, ◌≡◌, ◌↔◌, refl, arith, All, Bool-cases, inl, inr,
}

-- The keys of a map: a test for equality, and the order of iteration.
pub record Key (K : Type 0) : Type 0 where
  pub eq : K → K → Bool
  pub less : K → K → Bool
  pub eq_iff : (a b : K) → (eq a b ≡ true) ↔ (a ≡ b)

-- `operator<` of `std::string`.
unfoldable pub less_bytes : Bytes → Bytes → Bool
less_bytes [] [] = false
less_bytes [] (_ ∷ _) = true
less_bytes (_ ∷ _) [] = false
less_bytes (x ∷ xs) (y ∷ ys) = ltb x y || x == y && less_bytes xs ys

instance abbrev pub bytes_key : Key Bytes
bytes_key = record { eq = equal; less = less_bytes; eq_iff = equal_iff }

abbrev pub Map : Type 0 → Type 0 → Type 0
Map K V = List (K × V)

module _ {K : Type 0} ⦃key : Key K⦄ where
  pub eq_refl : (k : K) → key.eq k k ≡ true
  eq_refl k = (key.eq_iff k k).1 refl

module _ {K V : Type 0} ⦃key : Key K⦄ where
  -- `find`, and `at` where the key is there.
  unfoldable pub find : Map K V → K → Option V
  find [] k = none
  find ((j, v) ∷ m) k = if key.eq j k then some v else find m k

  -- `m[k] = v`
  unfoldable pub assign : Map K V → K → V → Map K V
  assign [] k v = (k, v) ∷ []
  assign ((j, w) ∷ m) k v =
      if key.eq j k
      then (k, v) ∷ m
      else if key.less k j
      then (k, v) ∷ (j, w) ∷ m
      else (j, w) ∷ assign m k v

  pub find-assign :
      (m : Map K V) (k j : K) (v : V)
      → find (assign m k v) j ≡ (if key.eq k j then some v else find m j)
  unfolding find assign
  find-assign [] k j v = refl
  find-assign ((i, w) ∷ m) k j v =
      ground (arith, key.eq_iff i k, key.eq_iff k j, key.eq_iff i j, find-assign m k j v)

  pub find-assign_self : (m : Map K V) (k : K) (v : V) → find (assign m k v) k ≡ some v
  find-assign_self m k v = rw (find-assign, eq_refl k)

  pub assign-All :
      (P : K × V → Type 0) (m : Map K V) (k : K) (v : V) → All P m → P (k, v) → All P (assign m k v)
  unfolding assign
  assign-All P [] k v _ h = (h, tt)
  assign-All P ((j, w) ∷ m) k v (p, ps) h = elim (Bool-cases (key.eq j k)) [
    | inl same ↦ rw same (h, ps)
    | inr other ↦ elim (Bool-cases (key.less k j)) [
      | inl before ↦ rw (other, before) (h, (p, ps))
      | inr behind ↦ rw (other, behind) (p, assign-All P m k v ps h)
    ]
  ]
