-- ===== src/Server/Metrics.antt =====
-- src/server.cc: `log_request` and `log_meme`.
use aite_cs.Prelude.{
  ℕ, suc, ◌+◌, ◌≤◌, Bool, true, false, ◌&&◌, ◌||◌, List, [], ◌∷◌, none, some, Bytes, equal,
  equal_iff, ltb, ◌==◌, length, if◌then◌else◌, Result, ok, err, ◌>>=◌, overflow, bind-eq-ok, subst,
  ◌≡◌, ◌↔◌, refl, ◌∙◌, arith, Bool-cases, inl, inr, Option-cases,
}
use aite_cs.Server.State.{Server}
use aite_cs.Standard.Ints.{int_max}
use aite_cs.Standard.Map.Sorted.{count}
use aite_cs.Standard.Map.{Key, Map, find, assign, bytes_key, less_bytes, find-assign}

abbrev pub same_pair : Bytes × ℕ → Bytes × ℕ → Bool
same_pair a b = equal a.0 b.0 && a.1 == b.1

pub same_pair_iff : (a b : Bytes × ℕ) → (same_pair a b ≡ true) ↔ (a ≡ b)
same_pair_iff (a, m) (b, n) = ground (arith, equal_iff a b)

-- A target and a status, ordered like `std::pair`.
instance abbrev pub request_key : Key (Bytes × ℕ)
request_key = record {
  eq = same_pair;
  less = λ a b. less_bytes a.0 b.0 || equal a.0 b.0 && ltb a.1 b.1;
  eq_iff = same_pair_iff;
}

-- `+= 1` on an `int`.
abbrev pub add_one : ℕ → Result ℕ
add_one n = if n == int_max then err overflow else ok (suc n)

unfoldable pub log_request : Server → Bytes × ℕ → Result Server
log_request server req_resp = elim (find server.requests_ req_resp) [
  | some n ↦ do m ← add_one n; ok (record server { requests_ = assign server.requests_ req_resp m })
  | none ↦ ok (record server { requests_ = assign server.requests_ req_resp 1 })
]

unfoldable pub log_meme : Server → Bytes → List Bytes → Server
log_meme server img_url selections = elim (find server.memes_ img_url) [
  | some _ ↦ server
  | none ↦ record server { memes_ = assign server.memes_ img_url selections }
]

-- How often a request has been counted.
abbrev pub served : Server → Bytes × ℕ → ℕ
served server k = count server.requests_ k

abbrev pub occurrences : Bytes × ℕ → List (Bytes × ℕ) → ℕ
occurrences k [] = 0
occurrences k (r ∷ rs) = (if same_pair r k then 1 else 0) + occurrences k rs

unfoldable pub log_requests : Server → List (Bytes × ℕ) → Result Server
log_requests server [] = ok server
log_requests server (r ∷ rs) = log_request server r >>= λ server'. log_requests server' rs

count-assign :
    (m : Map (Bytes × ℕ) ℕ) (r k : Bytes × ℕ)
    → count (assign m r (suc (count m r))) k ≡ count m k + (if same_pair r k then 1 else 0)
count-assign m r k = elim (Bool-cases (same_pair r k)) [
  | inl same ↦
      let here : r ≡ k = (same_pair_iff r k).0 same in
      rw (count, find-assign m r k (suc (count m r)), same, here) (omega arith)
  | inr other ↦ rw (count, find-assign m r k (suc (count m r)), other) (omega arith)
]

pub log_request-served :
    (server : Server) (r : Bytes × ℕ)
    → suc (served server r) ≤ int_max
    → log_request server r
      ≡ ok (record server { requests_ = assign server.requests_ r (suc (served server r)) })
unfolding log_request
log_request-served server r h = elim (Option-cases (find server.requests_ r)) [
  | inl new ↦ rw (log_request, served, count, new) refl
  | inr (n, seen) ↦
      let small : (n == int_max) ≡ false = ground arith in
      rw (log_request, served, count, seen, small) refl
]

add_one-suc : (n m : ℕ) → add_one n ≡ ok m → m ≡ suc n
add_one-suc n m e = ground arith

-- The server after a request was counted.
unfoldable pub counted : Server → Bytes × ℕ → Server
counted server r = record server {
  requests_ = assign server.requests_ r (suc (count server.requests_ r));
}

pub log_request-counted :
    (server : Server) (r : Bytes × ℕ) {server' : Server}
    → log_request server r ≡ ok server'
    → counted server r ≡ server'
unfolding log_request counted
log_request-counted server r {server'} e = elim (Option-cases (find server.requests_ r)) [
  | inl new ↦ let there = rw (log_request, new) at e in rw (count, new) (cc)
  | inr (k, seen) ↦
      let (m, added, there) = bind-eq-ok (add_one k) _ (rw (log_request, seen) at e) in
      rw (count, seen, ← add_one-suc k m added) (cc)
]

pub log_request-count :
    (server : Server) (r k : Bytes × ℕ) {server' : Server}
    → log_request server r ≡ ok server'
    → served server' k ≡ served server k + (if same_pair r k then 1 else 0)
unfolding counted
log_request-count server r k e =
    subst (λ (s : Server). served s k ≡ served server k + (if same_pair r k then 1 else 0))
      (log_request-counted server r e) (count-assign server.requests_ r k)

log_requests-served :
    (rs : List (Bytes × ℕ)) (server : Server)
    → ((k : Bytes × ℕ) → served server k + length rs ≤ int_max)
    → (server' : Server) × (log_requests server rs ≡ ok server')
      × ((k : Bytes × ℕ) → served server' k ≡ served server k + occurrences k rs)
unfolding log_requests
log_requests-served [] server h = (server, refl, λ k. omega arith)
log_requests-served (r ∷ rs) server h =
    let m = assign server.requests_ r (suc (served server r)) in
    let next = record server { requests_ = m } in
    let counts : (k : Bytes × ℕ)
        → served next k ≡ served server k + (if same_pair r k then 1 else 0) =
      count-assign server.requests_ r in
    let (last, e, counts') =
      log_requests-served rs next (λ k. ground (arith, counts k, h k, h r)) in
    (
      last,
      rw (log_request-served server r (omega (arith, h r))) e,
      λ k. omega (arith, counts k, counts' k),
    )

-- Starting from an empty table, the server can log any list of fewer than 2^31 requests, and each pair of
-- a target and a status is then counted as often as it stands in the list, in whatever order they came.
pub log_requests-occurrences :
    (rs : List (Bytes × ℕ)) (server : Server)
    → server.requests_ ≡ []
    → length rs ≤ int_max
    → (server' : Server) × (log_requests server rs ≡ ok server')
      × ((k : Bytes × ℕ) → served server' k ≡ occurrences k rs)
unfolding find
log_requests-occurrences rs server fresh h =
    let (last, e, counts) = log_requests-served rs server (λ k. rw fresh (omega (arith, h))) in
    (last, e, λ k. counts k ∙ rw fresh (omega arith))

-- The first selections logged for an image stay: whatever is logged later, also for that image, does not
-- change what the table holds of it.
pub log_meme-first :
    (server : Server) (url url' : Bytes) (selections later : List Bytes)
    → find server.memes_ url ≡ some selections
    → find (log_meme server url' later).memes_ url ≡ some selections
unfolding log_meme
log_meme-first server url url' selections later h = elim (Option-cases (find server.memes_ url')) [
  | inl new ↦
      rw (log_meme, new)
        (find-assign server.memes_ url' url later ∙ ground (arith, equal_iff url' url))
  | inr (old, seen) ↦ rw (log_meme, seen) h
]
