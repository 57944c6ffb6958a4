-- ===== src/RequestParser/Translate.antt =====
-- `request_parser::translate`: the request that was read becomes a message.
use aite_cs.Prelude.{
  Bytes, or_uncaught, ℕ, ◌+◌, ◌*◌, List, [], ◌∷◌, Option, none, some, ltb, if◌then◌else◌, Result,
  ok, err, ◌>>=◌, uninitialised, overflow, ◌≡◌, refl, ◌∙◌, bind-eq-ok, sym, ap,
}
use aite_cs.Http.{Http, RequestLaws}
use aite_cs.RequestParser.Machine.{Header, State, ParserRequest, is_true, int_max}
use aite_cs.RequestParser.Parse.{Parsed, read_request}

-- A read of a number that may not be set.
abbrev pub read_int : Option ℕ → Result ℕ
read_int none = err uninitialised
read_int (some n) = ok n

-- `major * 10 + minor`, in `int`.
unfoldable pub version_number : ℕ → ℕ → Result ℕ
version_number major minor =
    if ltb int_max (major * 10 + minor) then err overflow else ok (major * 10 + minor)

or_uncaught-ok {ℓ} : {A : Type ℓ} (o : Option A) {a : A} → or_uncaught o ≡ ok a → o ≡ some a
or_uncaught-ok none e = absurd (cc)
or_uncaught-ok (some a) e = cc

module _ (http : Http) where
  open http use {Request, set_method, set_version, set_target, set_field, target, body}

  unfoldable pub set_fields : Request → List Header → Request
  set_fields req [] = req
  set_fields req (h ∷ hs) = set_fields (set_field req h.name h.value) hs

  unfoldable pub translate : Request → ParserRequest → Result Request
  translate req parsed = do
    named ← or_uncaught (set_method req parsed.method)
    major ← read_int parsed.http_version_major
    minor ← read_int parsed.http_version_minor
    version ← version_number major minor
    ok (set_fields (set_target (set_version named version) parsed.uri) parsed.headers)

  -- Only an accepted request is translated.
  unfoldable pub translated : Request → Parsed → Result Request
  translated req parsed = elim parsed.result [ is_true ↦ translate req parsed.req | _ ↦ ok req ]

  -- `parse`, with the message as it leaves it.
  unfoldable pub parse : Request → State → Bytes → Result (Parsed × Request)
  parse req s input = do
    parsed ← read_request s input
    message ← translated req parsed
    ok (parsed, message)

  module _ (laws : RequestLaws http) where
    target-set_fields : (req : Request) (hs : List Header) → target (set_fields req hs) ≡ target req
    unfolding set_fields
    target-set_fields req [] = refl
    target-set_fields req (h ∷ hs) =
        target-set_fields (set_field req h.name h.value) hs
        ∙ laws.target-set_field req h.name h.value

    body-set_fields : (req : Request) (hs : List Header) → body (set_fields req hs) ≡ body req
    unfolding set_fields
    body-set_fields req [] = refl
    body-set_fields req (h ∷ hs) =
        body-set_fields (set_field req h.name h.value) hs ∙ laws.body-set_field req h.name h.value

    -- A message has the target of the request that was read, and the body that it had before.
    pub translate-target :
        (req : Request) (parsed : ParserRequest) {req' : Request}
        → translate req parsed ≡ ok req'
        → (target req' ≡ parsed.uri) × (body req' ≡ body req)
    unfolding translate
    translate-target req parsed {req'} e =
        let (named, verb, e0) = bind-eq-ok (or_uncaught (set_method req parsed.method)) _ e in
        let (major, _, e1) = bind-eq-ok (read_int parsed.http_version_major) _ e0 in
        let (minor, _, e2) = bind-eq-ok (read_int parsed.http_version_minor) _ e1 in
        let (v, _, e3) = bind-eq-ok (version_number major minor) _ e2 in
        let same : set_fields (set_target (set_version named v) parsed.uri) parsed.headers ≡ req' =
          cc in
        (
          ap target (sym same)
              ∙ target-set_fields _ parsed.headers
              ∙ laws.target-set_target _ parsed.uri,
          ap body (sym same)
              ∙ body-set_fields _ parsed.headers
              ∙ laws.body-set_target _ parsed.uri
              ∙ laws.body-set_version _ v
              ∙ laws.body-set_method req parsed.method
                  (or_uncaught-ok (set_method req parsed.method) verb),
        )
