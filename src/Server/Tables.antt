-- ===== src/Server/Tables.antt =====
-- Lemmas on the tables of the server: what `assign` keeps, and where a handler is listed.
use aite_cs.Prelude.{
  ℕ, zero, suc, ◌≤◌, ◌<◌, Bool, true, false, ◌||◌, List, [], ◌∷◌, ◌++◌, Option, none, some, Bytes,
  All, codes, equal, equal_iff, length, ◌==◌, ==_iff, ◌≡◌, refl, ◌∙◌, arith, subst, Bool-cases,
  Option-cases, inl, inr,
}
use aite_cs.Handlers.{
  RequestHandler, echo, static_file, reverse_proxy, not_found, sleep, meme, status, health,
}
use aite_cs.Server.State.{Pointer, Server}
use aite_cs.Server.Registry.{at_or_empty, push_at, holds, type_in}
use aite_cs.Standard.Map.{Map, find, assign, bytes_key}

-- The name under which a configuration asks for a handler.
abbrev pub type_name : RequestHandler → Bytes
type_name echo = codes "EchoHandler"
type_name (static_file _ _) = codes "StaticHandler"
type_name (reverse_proxy _ _ _) = codes "ReverseProxyHandler"
type_name not_found = codes "NotFoundHandler"
type_name sleep = codes "SleepHandler"
type_name (meme _) = codes "MemeHandler"
type_name status = codes "StatusHandler"
type_name health = codes "HealthHandler"

-- The handler that a pointer points to.
abbrev pub get_elem? : List RequestHandler → ℕ → Option RequestHandler
get_elem? [] n = none
get_elem? (h ∷ hs) zero = some h
get_elem? (h ∷ hs) (suc n) = get_elem? hs n

abbrev pub HasType : List RequestHandler → Bytes → Pointer → Type 0
HasType heap type p = (h : RequestHandler) × (get_elem? heap p ≡ some h) × (type_name h ≡ type)

abbrev pub EntryTyped : List RequestHandler → Bytes × List Pointer → Type 0
EntryTyped heap (type, pointers) = All (HasType heap type) pointers

abbrev pub listed : Map Bytes (List Pointer) → Pointer → Bool
listed [] p = false
listed ((type, pointers) ∷ table) p = holds pointers p || listed table p

-- Every pointer stands in the table of types under the type of its handler, every handler stands
-- there, the locations point to handlers, and no request has been counted.
pub record IsWellFormed (server : Server) : Type 0 where
  pub typed : All (EntryTyped server.handlers) server.type_to_handler_
  pub complete :
      (p : Pointer) → p < length server.handlers → listed server.type_to_handler_ p ≡ true
  pub pointing : All (λ entry. entry.1 < length server.handlers) server.location_to_handler_
  pub uncounted : server.requests_ ≡ []

module _ {V : Type 0} (P : Bytes × V → Type 0) where
  pub find-All : (m : Map Bytes V) (k : Bytes) {v : V} → All P m → find m k ≡ some v → P (k, v)
  unfolding find
  find-All [] k h e = absurd (cc)
  find-All ((j, w) ∷ m) k {v} (p, ps) e = elim (Bool-cases (equal j k)) [
    | inl same ↦ let here : (j, w) ≡ (k, v) = ground (arith, equal_iff j k) in subst P here p
    | inr other ↦ find-All m k ps (rw other at e)
  ]

get_elem?-append :
    (heap more : List RequestHandler) (p : Pointer) {h : RequestHandler}
    → get_elem? heap p ≡ some h
    → get_elem? (heap ++ more) p ≡ some h
get_elem?-append [] more p e = absurd (cc)
get_elem?-append (x ∷ heap) more zero e = e
get_elem?-append (x ∷ heap) more (suc p) e = get_elem?-append heap more p e

pub get_elem?-last :
    (heap : List RequestHandler) (h : RequestHandler)
    → get_elem? (heap ++ h ∷ []) (length heap) ≡ some h
get_elem?-last [] h = refl
get_elem?-last (x ∷ heap) h = get_elem?-last heap h

-- A pointer at which there is a handler is below their number.
pub get_elem?-below :
    (heap : List RequestHandler) (p : ℕ) {h : RequestHandler}
    → get_elem? heap p ≡ some h
    → p < length heap
get_elem?-below [] p e = cc
get_elem?-below (g ∷ heap) zero e = omega arith
get_elem?-below (g ∷ heap) (suc p) e =
    let below : p < length heap = get_elem?-below heap p e in omega arith

pub get_elem?-lt :
    (heap : List RequestHandler) (p : Pointer)
    → p < length heap
    → (h : RequestHandler) × (get_elem? heap p ≡ some h)
get_elem?-lt [] p l = absurd (omega arith)
get_elem?-lt (x ∷ heap) zero l = (x, refl)
get_elem?-lt (x ∷ heap) (suc p) l = get_elem?-lt heap p (omega arith)

holds-append :
    (ps qs : List Pointer) (p : Pointer) → holds (ps ++ qs) p ≡ (holds ps p || holds qs p)
holds-append [] qs p = refl
holds-append (x ∷ ps) qs p = ground (arith, holds-append ps qs p)

listed-assign :
    (m : Map Bytes (List Pointer)) (k : Bytes) (v : List Pointer) (p : Pointer)
    → ((w : List Pointer) → find m k ≡ some w → holds w p ≡ true → holds v p ≡ true)
    → listed m p ≡ true
    → listed (assign m k v) p ≡ true
unfolding assign find
listed-assign [] k v p kept l = absurd (cc)
listed-assign ((j, w) ∷ m) k v p kept l = elim (Bool-cases (equal j k)) [
  | inl same ↦
      let stays : holds w p ≡ true → holds v p ≡ true = kept w (rw same refl) in
      rw same
        (elim (Bool-cases (holds w p)) [ inl here ↦ rw (stays here) refl | inr _ ↦ ground arith ])
  | inr other ↦
      let rest : listed m p ≡ true → listed (assign m k v) p ≡ true =
        listed-assign m k v p (λ u e. kept u (rw other e)) in
      rw other (ground (arith, rest))
]

pub listed-assign_self :
    (m : Map Bytes (List Pointer)) (k : Bytes) (v : List Pointer) (p : Pointer)
    → holds v p ≡ true
    → listed (assign m k v) p ≡ true
unfolding assign
listed-assign_self [] k v p h = ground arith
listed-assign_self ((j, w) ∷ m) k v p h = ground (arith, listed-assign_self m k v p h)

holds-HasType :
    (heap : List RequestHandler) (type : Bytes) (ps : List Pointer) (p : Pointer)
    → All (HasType heap type) ps
    → holds ps p ≡ true
    → HasType heap type p
holds-HasType heap type [] p _ h = absurd (cc)
holds-HasType heap type (q ∷ ps) p (t, ts) h = elim (Bool-cases (q == p)) [
  | inl here ↦ subst (HasType heap type) ((==_iff q p).0 here) t
  | inr later ↦ holds-HasType heap type ps p ts (rw later at h)
]

pub type_in-listed :
    (heap : List RequestHandler) (m : Map Bytes (List Pointer)) (p : Pointer) {h : RequestHandler}
    → All (EntryTyped heap) m
    → listed m p ≡ true
    → get_elem? heap p ≡ some h
    → type_in m p ≡ type_name h
type_in-listed heap [] p t l e = absurd (cc)
type_in-listed heap ((type, ps) ∷ m) p (t, ts) l e = elim (Bool-cases (holds ps p)) [
  | inl here ↦ rw here (let (h', e', same) = holds-HasType heap type ps p t here in cc)
  | inr later ↦ rw later (type_in-listed heap m p ts (ground arith) e)
]

pub EntryTyped-append :
    (heap more : List RequestHandler) (m : Map Bytes (List Pointer))
    → All (EntryTyped heap) m
    → All (EntryTyped (heap ++ more)) m
EntryTyped-append heap more [] _ = tt
EntryTyped-append heap more ((type, ps) ∷ m) (t, ts) =
    (pointers ps t, EntryTyped-append heap more m ts)
  where
    pointers :
        (qs : List Pointer) → All (HasType heap type) qs → All (HasType (heap ++ more) type) qs
    pointers [] _ = tt
    pointers (q ∷ qs) ((h, e, same), rest) =
        ((h, get_elem?-append heap more q e, same), pointers qs rest)

pub at_or_empty-HasType :
    (heap : List RequestHandler) (m : Map Bytes (List Pointer)) (k : Bytes)
    → All (EntryTyped heap) m
    → All (HasType heap k) (at_or_empty m k)
at_or_empty-HasType heap m k t = elim (Option-cases (find m k)) [
  | inl new ↦ rw (at_or_empty, new) tt
  | inr (ps, seen) ↦ rw (at_or_empty, seen) (find-All (EntryTyped heap) m k t seen)
]

pub holds-last : (ps : List Pointer) (p : Pointer) → holds (ps ++ p ∷ []) p ≡ true
holds-last [] p = ground arith
holds-last (q ∷ ps) p = ground (arith, holds-last ps p)

pub listed-push_at :
    (m : Map Bytes (List Pointer)) (k : Bytes) (q p : Pointer)
    → listed m p ≡ true
    → listed (push_at m k q) p ≡ true
listed-push_at m k q p =
    listed-assign m k (at_or_empty m k ++ q ∷ []) p
      (λ w e h. rw (at_or_empty, e) (holds-append w (q ∷ []) p ∙ rw h refl))

pub below_mono :
    (m : Map Bytes Pointer) (a b : ℕ)
    → a ≤ b
    → All (λ entry. entry.1 < a) m
    → All (λ entry. entry.1 < b) m
below_mono [] a b l _ = tt
below_mono ((k, p) ∷ m) a b l (h, hs) = (omega arith, below_mono m a b l hs)
