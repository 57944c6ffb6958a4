-- ===== src/RequestParser/Faults.antt =====
-- Undefined behaviour in `consume` and `parse`: excluded from the reset state but for overlong
-- version numbers, and met when a read ends inside a header or a version.
use aite_cs.Prelude.{
  ℕ, List, [], ◌∷◌, none, Result, Fault, ok, err, overflow, ◌≡◌, ◌≢◌, refl, subst, arith,
  bind-eq-err, inl, inr, Bytes,
}
use aite_cs.RequestParser.Machine.{
  State, method_start, http_version_major_start, http_version_major, http_version_minor_start,
  http_version_minor, header_name, header_lws, header_value, space_before_header_value,
  ParserRequest, Consumed, consume, push_digit, push_name, push_value, Header, indeterminate, blank,
}
use aite_cs.RequestParser.Parse.{decide_on, parse_from, read_request, Parsed, reset}

-- What the request must hold for the next step not to touch what is not there.
abbrev Ready : State → ParserRequest → Type 0
Ready http_version_major_start req =
    (req.http_version_major ≢ none) × (req.http_version_minor ≢ none)
Ready http_version_major req = (req.http_version_major ≢ none) × (req.http_version_minor ≢ none)
Ready http_version_minor_start req = req.http_version_minor ≢ none
Ready http_version_minor req = req.http_version_minor ≢ none
Ready header_name req = req.headers ≢ []
Ready header_lws req = req.headers ≢ []
Ready header_value req = req.headers ≢ []
Ready space_before_header_value req = req.headers ≢ []
Ready _ req = Unit

push_name-ok :
    (hs : List Header) (c : ℕ)
    → hs ≢ []
    → (hs' : List Header) × (push_name hs c ≡ ok hs') × (hs' ≢ [])
unfolding push_name
push_name-ok [] c h = absurd (h refl)
push_name-ok (x ∷ []) c h = (_, refl, λ e. cc)
push_name-ok (x ∷ y ∷ hs) c h =
    let (hs', e, ne) = push_name-ok (y ∷ hs) c (λ e. cc) in (x ∷ hs', rw e, λ e'. cc)

push_value-ok :
    (hs : List Header) (c : ℕ)
    → hs ≢ []
    → (hs' : List Header) × (push_value hs c ≡ ok hs') × (hs' ≢ [])
unfolding push_value
push_value-ok [] c h = absurd (h refl)
push_value-ok (x ∷ []) c h = (_, refl, λ e. cc)
push_value-ok (x ∷ y ∷ hs) c h =
    let (hs', e, ne) = push_value-ok (y ∷ hs) c (λ e. cc) in (x ∷ hs', rw e, λ e'. cc)

-- Either the step goes through, and what it asks for next is ready, or a version number overflows.
abbrev Steady : Result Consumed → Type 0
Steady (ok s) = s.result ≡ indeterminate → Ready s.state_ s.req
Steady (err e) = e ≡ overflow

consume-Steady : (s : State) (req : ParserRequest) (c : ℕ) → Ready s req → Steady (consume s req c)
unfolding consume push_digit
consume-Steady header_name req c h = let (hs, e, ne) = push_name-ok req.headers c h in ground arith
consume-Steady header_value req c h =
    let (hs, e, ne) = push_value-ok req.headers c h in ground arith
consume-Steady header_lws req c h = let (hs, e, ne) = push_value-ok req.headers c h in ground arith
consume-Steady s req c h = ground arith

decide_on-err :
    (q : Consumed) (rest : Bytes) (next : Result Parsed) (e : Fault)
    → decide_on q rest next ≡ err e
    → (q.result ≡ indeterminate) × (next ≡ err e)
decide_on-err q rest next e h = ground arith

Steady-err : (r : Result Consumed) (e : Fault) → Steady r → r ≡ err e → e ≡ overflow
Steady-err r e h x = ground arith

Steady-ok :
    (r : Result Consumed) (q : Consumed)
    → Steady r
    → r ≡ ok q
    → q.result ≡ indeterminate
    → Ready q.state_ q.req
Steady-ok (ok s) q h x =
    subst (λ (t : Consumed). t.result ≡ indeterminate → Ready t.state_ t.req) (cc) h
Steady-ok (err f) q h x = cc

parse_from-err :
    (input : Bytes) (s : State) (req : ParserRequest) (e : Fault)
    → Ready s req
    → parse_from s req input ≡ err e
    → e ≡ overflow
unfolding parse_from
parse_from-err [] s req e h x = cc
parse_from-err (c ∷ cs) s req e h x = elim (bind-eq-err (consume s req c) _ x) [
  | inl now ↦ Steady-err (consume s req c) e (consume-Steady s req c h) now
  | inr (q, step, later) ↦
      let (asks, x') = decide_on-err q cs (parse_from q.state_ q.req cs) e later in
      parse_from-err cs q.state_ q.req e (Steady-ok _ q (consume-Steady s req c h) step asks) x'
]

-- From the reset state the only undefined behaviour that the loop of `parse` can run into, in front of the
-- call of `translate`, is the overflow of a version number: it never takes the last header of an empty list, and never reads a
-- version number that was not set.
pub parse-err : (input : Bytes) (e : Fault) → read_request reset input ≡ err e → e ≡ overflow
unfolding read_request
parse-err input e x = parse_from-err input method_start blank e tt x
