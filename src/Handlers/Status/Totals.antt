-- ===== src/Handlers/Status/Totals.antt =====
-- The total on the page is the number of requests that were logged.
use aite_cs.Prelude.{
  codes, ◌++◌, false, ◌⊎◌, ℕ, zero, suc, ◌+◌, ◌≤◌, true, false, List, [], ◌∷◌, some, Bytes, All,
  length, equal_iff, ltb, ok, err, overflow, bind-eq-ok, Bool-cases, inl, inr, ◌≡◌, ◌≢◌, refl, ◌∙◌,
  ap, arith, subst,
}
use aite_cs.Handlers.Status.{
  Rows, status_class, add_count, row, add_rows, request_table, status_body, handle_status,
}
use aite_cs.Handlers.Status.Html.{table_head}
use aite_cs.Http.{Http}
use aite_cs.Standard.Decimal.{leading_digit}
use aite_cs.Server.Metrics.{
  request_key, same_pair, same_pair_iff, counted, log_request-counted, log_request, log_requests,
}
use aite_cs.Server.State.{Server}
use aite_cs.Standard.Ints.{int_max}
use aite_cs.Standard.Map.{Map, find, find-assign, assign-All}
use aite_cs.Utils.ErrorPage.{page}
use aite_cs.Standard.Map.Sorted.{
  OrderLaws, bytes-OrderLaws, IsSorted, assign-IsSorted, sum_counts, sum_counts-assign, count,
}

pair_irreflexive : (a : Bytes × ℕ) → request_key.less a a ≡ false
pair_irreflexive (a, m) = ground (arith, bytes-OrderLaws.irreflexive a)

pair_transitive :
    (a b c : Bytes × ℕ)
    → request_key.less a b ≡ true
    → request_key.less b c ≡ true
    → request_key.less a c ≡ true
pair_transitive (a, m) (b, n) (c, k) h l =
    ground (arith, bytes-OrderLaws.transitive a b c, equal_iff a b, equal_iff b c, equal_iff a c)

pair_total :
    (a b : Bytes × ℕ)
    → request_key.eq a b ≡ false
    → request_key.less b a ≡ false
    → request_key.less a b ≡ true
pair_total (a, m) (b, n) h l =
    ground (arith, bytes-OrderLaws.total a b, equal_iff a b, equal_iff b a)

pub request-OrderLaws : OrderLaws request_key
request-OrderLaws = record {
  irreflexive = pair_irreflexive;
  transitive = pair_transitive;
  total = pair_total;
}

abbrev HasStatus : (Bytes × ℕ) × ℕ → Type 0
HasStatus entry = entry.0.1 ≢ 0

-- The table in order and its counts after some requests.
abbrev CountsTo : Server → ℕ → Type 0
CountsTo server n =
    IsSorted server.requests_ × (sum_counts server.requests_ ≡ n) × All HasStatus server.requests_

log_request-CountsTo :
    (server : Server) (r : Bytes × ℕ) {server' : Server} (n : ℕ)
    → r.1 ≢ 0
    → CountsTo server n
    → log_request server r ≡ ok server'
    → CountsTo server' (suc n)
unfolding counted
log_request-CountsTo server r {server'} n status (sorted, sum, known) e =
    subst (λ (s : Server). CountsTo s (suc n)) (log_request-counted server r e)
      (
        assign-IsSorted request-OrderLaws server.requests_ r (suc (count server.requests_ r))
            sorted,
        sum_counts-assign request-OrderLaws server.requests_ r sorted ∙ ap suc sum,
        assign-All HasStatus server.requests_ r (suc (count server.requests_ r)) known status,
      )

log_requests-CountsTo :
    (rs : List (Bytes × ℕ)) (server : Server) {server' : Server} (n : ℕ)
    → All (λ r. r.1 ≢ 0) rs
    → CountsTo server n
    → log_requests server rs ≡ ok server'
    → CountsTo server' (n + length rs)
unfolding log_requests
log_requests-CountsTo [] server {server'} n _ c e =
    let same : server ≡ server' = cc in
    subst (λ (s : Server). CountsTo s (n + 0)) same (subst (CountsTo server) (omega arith) c)
log_requests-CountsTo (r ∷ rs) server {server'} n (h, hs) c e =
    let (next, logged, later) = bind-eq-ok (log_request server r) _ e in
    subst (CountsTo server') (omega arith)
      (log_requests-CountsTo rs next (suc n) hs (log_request-CountsTo server r n h c logged) later)

abbrev Logged : Server → Bytes × ℕ → Type 0
Logged server k = (n : ℕ) × (find server.requests_ k ≡ some n)

log_request-there :
    (server : Server) (r k : Bytes × ℕ) {server' : Server}
    → (r ≡ k) ⊎ Logged server k
    → log_request server r ≡ ok server'
    → Logged server' k
unfolding counted
log_request-there server r k there e =
    subst (λ (s : Server). Logged s k) (log_request-counted server r e)
      (elim (Bool-cases (same_pair r k)) [
        | inl same ↦
            let n = suc (count server.requests_ r) in
            (n, find-assign server.requests_ r k n ∙ rw same refl)
        | inr other ↦ elim there [
          | inl eq ↦ absurd (ground (arith, same_pair_iff r k))
          | inr (n, found) ↦ (
            n,
            find-assign server.requests_ r k (suc (count server.requests_ r))
                ∙ rw (other, found) refl,
          )
        ]
      ])

log_requests-keeps :
    (rs : List (Bytes × ℕ)) (server : Server) (k : Bytes × ℕ) {server' : Server}
    → Logged server k
    → log_requests server rs ≡ ok server'
    → Logged server' k
unfolding log_requests
log_requests-keeps [] server k {server'} there e =
    let same : server ≡ server' = cc in subst (λ (s : Server). Logged s k) same there
log_requests-keeps (r ∷ rs) server k there e =
    let (next, logged, later) = bind-eq-ok (log_request server r) _ e in
    log_requests-keeps rs next k (log_request-there server r k (inr there) logged) later

add_count-fits : (total n : ℕ) → total + n ≤ int_max → add_count total n ≡ ok (total + n)
unfolding add_count
add_count-fits total n h = ground arith

add_count-cases :
    (total n : ℕ) → (add_count total n ≡ err overflow) ⊎ (add_count total n ≡ ok (total + n))
unfolding add_count
add_count-cases total n = elim (Bool-cases (ltb int_max (total + n))) [
  | inl large ↦ inl (rw large refl)
  | inr small ↦ inr (rw small refl)
]

module _ (http : Http) where
  add_rows-total :
      (m : Map (Bytes × ℕ) ℕ) (total : ℕ)
      → All HasStatus m
      → total + sum_counts m ≤ int_max
      → (rows : Rows) × (add_rows http m total ≡ ok rows) × (rows.total ≡ total + sum_counts m)
  unfolding add_rows status_class
  add_rows-total [] total _ h = (record { html = []; total = total }, refl, omega arith)
  add_rows-total (((uri, zero), n) ∷ m) total (s, ss) h = absurd (s refl)
  add_rows-total (((uri, suc k), n) ∷ m) total (s, ss) h =
      let (rows, e, sum) = add_rows-total m (total + n) ss (omega arith) in
      let fits = add_count-fits total n (omega arith) in
      let all = record rows {
        html = row http (uri, suc k) (leading_digit (suc k) (suc k)) n ++ rows.html;
      } in
      (all, rw (fits, e) refl, sum ∙ omega arith)

  request_table-log_requests :
      (rs : List (Bytes × ℕ)) (server : Server) {server' : Server}
      → server.requests_ ≡ []
      → All (λ r. r.1 ≢ 0) rs
      → length rs ≤ int_max
      → log_requests server rs ≡ ok server'
      → (rows : Rows) × (request_table http server'.requests_ ≡ ok rows) × (rows.total ≡ length rs)
  unfolding request_table
  request_table-log_requests rs server {server'} fresh known small e =
      let (_, sum, statuses) =
        log_requests-CountsTo rs server 0 known (rw fresh (tt, refl, tt)) e in
      go server'.requests_ sum statuses
    where
      go :
          (m : Map (Bytes × ℕ) ℕ)
          → sum_counts m ≡ 0 + length rs
          → All HasStatus m
          → (rows : Rows) × (request_table http m ≡ ok rows) × (rows.total ≡ length rs)
      go [] sum statuses = (record { html = []; total = 0 }, refl, omega (arith, sum))
      go (x ∷ m) sum statuses =
          let (rows, e, total) = add_rows-total (x ∷ m) 0 statuses (omega arith) in
          let table = record rows { html = table_head ++ rows.html ++ codes "</table>" } in
          (table, rw e refl, omega (arith, total, sum))

  add_rows-unknown :
      (m : Map (Bytes × ℕ) ℕ) (total : ℕ) (uri : Bytes) {n : ℕ}
      → find m (uri, 0) ≡ some n
      → add_rows http m total ≡ err overflow
  unfolding find add_rows status_class
  add_rows-unknown [] total uri e = absurd (cc)
  add_rows-unknown (((other, zero), n) ∷ m) total uri e = refl
  add_rows-unknown (((other, suc k), n) ∷ m) total uri e =
      let ne : same_pair (other, suc k) (uri, 0) ≡ false = ground arith in
      let later = add_rows-unknown m (total + n) uri (rw ne at e) in
      elim (add_count-cases total n) [
        | inl large ↦ rw large refl
        | inr small ↦ rw (small, later) refl
      ]

  request_table-unknown :
      (uri : Bytes) (rs : List (Bytes × ℕ)) (server : Server) {server' : Server}
      → log_requests server ((uri, 0) ∷ rs) ≡ ok server'
      → request_table http server'.requests_ ≡ err overflow
  unfolding log_requests request_table find
  request_table-unknown uri rs server {server'} e =
      let (next, logged, later) = bind-eq-ok (log_request server (uri, 0)) _ e in
      let (n, there) =
        log_requests-keeps rs next (uri, 0)
          (log_request-there server (uri, 0) (uri, 0) (inl refl) logged) later in
      go server'.requests_ there
    where
      go :
          (m : Map (Bytes × ℕ) ℕ) {n : ℕ}
          → find m (uri, 0) ≡ some n
          → request_table http m ≡ err overflow
      go [] there = absurd (cc)
      go (x ∷ m) there = rw (add_rows-unknown (x ∷ m) 0 uri there) refl

  -- As long as no response had the status 0, which stands for all numbers that are no status, the page
  -- gives the number of the requests that were logged, from an empty table on, for up to 2^31 - 1 of them.
  pub handle_status-log_requests :
      (rs : List (Bytes × ℕ)) (server : Server) {server' : Server} (req : http.Request)
      → server.requests_ ≡ []
      → All (λ r. r.1 ≢ 0) rs
      → length rs ≤ int_max
      → log_requests server rs ≡ ok server'
      → (rows : Rows) × (handle_status http (some server') req
          ≡ ok (page http 200 (codes "text/html") (status_body http server' rows)))
        × (rows.total ≡ length rs)
  unfolding handle_status
  handle_status-log_requests rs server req fresh known small e =
      let (rows, table, total) = request_table-log_requests rs server fresh known small e in
      (rows, rw table refl, total)

  -- Once a response with the status 0 has been logged, the page is undefined, whatever is logged later.
  pub handle_status-unknown :
      (uri : Bytes) (rs : List (Bytes × ℕ)) (server : Server) {server' : Server}
      (req : http.Request)
      → log_requests server ((uri, 0) ∷ rs) ≡ ok server'
      → handle_status http (some server') req ≡ err overflow
  unfolding handle_status
  handle_status-unknown uri rs server req e = rw (request_table-unknown uri rs server e) refl
