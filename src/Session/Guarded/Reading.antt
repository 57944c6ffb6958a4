-- ===== src/Session/Guarded/Reading.antt =====
-- The parser, the message that it fills, and the search for the handler.
use aite_cs.Prelude.{
  or_uncaught, bind_assoc, subst, Fault, ℕ, ◌==◌, ◌++◌, List, [], ◌∷◌, Option, none, some, Bytes, ℤ,
  pos, negsuc, Result, ok, err, ◌>>=◌, ◌≡◌, refl, arith, Bool-cases, inl, inr,
}
use aite_cs.Http.{Http}
use aite_cs.RequestParser.Machine.{
  Header, State, ParserRequest, Consumed, Tribool, is_true, is_false, indeterminate, blank,
  push_name, push_value, push_digit, consume,
}
use aite_cs.RequestParser.Parse.{Parsed, decide_on, parse_from, read_request}
use aite_cs.RequestParser.Translate.{parse, translated, read_int, version_number, translate}
use aite_cs.Server.Routing.{get_request_handler}
use aite_cs.Server.Routing.Longest.{ParentLaws, get_request_handler-answers}
use aite_cs.Server.State.{Pointer, Server}
use aite_cs.Session.Callbacks.{pointer_found, look_up}
use aite_cs.Session.Guarded.{or_uncaught-IsGuarded, IsGuarded, IsGuarded-err, bind-IsGuarded}
use aite_cs.Utils.FilePath.{BoostPath, pop_back, add_component, walk, convert_to_absolute_path}

push_name-IsGuarded : (hs : List Header) (c : ℕ) → IsGuarded (push_name hs c)
unfolding push_name
push_name-IsGuarded [] c = ((λ e. cc), λ e. cc)
push_name-IsGuarded (h ∷ []) c = tt
push_name-IsGuarded (h ∷ x ∷ hs) c =
    bind-IsGuarded (push_name (x ∷ hs) c) _ (push_name-IsGuarded (x ∷ hs) c) (λ a e. tt)

push_value-IsGuarded : (hs : List Header) (c : ℕ) → IsGuarded (push_value hs c)
unfolding push_value
push_value-IsGuarded [] c = ((λ e. cc), λ e. cc)
push_value-IsGuarded (h ∷ []) c = tt
push_value-IsGuarded (h ∷ x ∷ hs) c =
    bind-IsGuarded (push_value (x ∷ hs) c) _ (push_value-IsGuarded (x ∷ hs) c) (λ a e. tt)

push_digit-IsGuarded : (n : Option ℕ) (c : ℕ) → IsGuarded (push_digit n c)
unfolding push_digit
push_digit-IsGuarded n c = ground arith

consume-IsGuarded : (s : State) (req : ParserRequest) (c : ℕ) → IsGuarded (consume s req c)
unfolding consume
consume-IsGuarded s req c = ground (
  arith,
  push_name-IsGuarded req.headers c,
  push_value-IsGuarded req.headers c,
  push_digit-IsGuarded req.http_version_major c,
  push_digit-IsGuarded req.http_version_minor c,
)

parse_from-IsGuarded :
    (s : State) (req : ParserRequest) (input : Bytes) → IsGuarded (parse_from s req input)
unfolding parse_from
parse_from-IsGuarded s req [] = tt
parse_from-IsGuarded s req (c ∷ cs) =
    bind-IsGuarded (consume s req c) _ (consume-IsGuarded s req c)
      (λ q e. decide q (parse_from-IsGuarded q.state_ q.req cs))
  where
    decide :
        (q : Consumed)
        → IsGuarded (parse_from q.state_ q.req cs)
        → IsGuarded (decide_on q cs (parse_from q.state_ q.req cs))
    decide q g = ground arith

pub read_request-IsGuarded : (s : State) (input : Bytes) → IsGuarded (read_request s input)
unfolding read_request
read_request-IsGuarded s input = parse_from-IsGuarded s blank input

read_int-IsGuarded : (n : Option ℕ) → IsGuarded (read_int n)
read_int-IsGuarded none = ((λ e. cc), λ e. cc)
read_int-IsGuarded (some n) = tt

version_number-IsGuarded : (major minor : ℕ) → IsGuarded (version_number major minor)
unfolding version_number
version_number-IsGuarded major minor = ground arith

translated-IsGuarded :
    (http : Http) (req : http.Request) (parsed : Parsed) → IsGuarded (translated http req parsed)
unfolding translated translate
translated-IsGuarded http req parsed = go parsed.result
  where
    message : IsGuarded (translate http req parsed.req)
    message =
        bind-IsGuarded (or_uncaught (http.set_method req parsed.req.method)) _
          (or_uncaught-IsGuarded _)
          (λ named _.
            bind-IsGuarded (read_int parsed.req.http_version_major) _ (read_int-IsGuarded _)
              (λ major _.
                bind-IsGuarded (read_int parsed.req.http_version_minor) _ (read_int-IsGuarded _)
                  (λ minor _.
                    bind-IsGuarded (version_number major minor) _
                      (version_number-IsGuarded major minor) (λ v _. tt))))

    go :
        (t : Tribool)
        → IsGuarded (elim t as (λ _. Result http.Request) [
          | is_true ↦ translate http req parsed.req
          | _ ↦ ok req
        ])
    go is_true = message
    go is_false = tt
    go indeterminate = tt

pub parse-IsGuarded :
    (http : Http) (req : http.Request) (s : State) (input : Bytes)
    → IsGuarded (parse http req s input)
unfolding parse
parse-IsGuarded http req s input =
    bind-IsGuarded (read_request s input) _ (read_request-IsGuarded s input) (λ parsed _.
      bind-IsGuarded (translated http req parsed) _ (translated-IsGuarded http req parsed)
        (λ message _. tt))

pop_back-IsGuarded : (xs : List Bytes) → IsGuarded (pop_back xs)
unfolding pop_back
pop_back-IsGuarded [] = ((λ e. cc), λ e. cc)
pop_back-IsGuarded (x ∷ []) = tt
pop_back-IsGuarded (x ∷ y ∷ xs) =
    bind-IsGuarded (pop_back (y ∷ xs)) _ (pop_back-IsGuarded (y ∷ xs)) (λ a e. tt)

add_component-IsGuarded : (comps : List Bytes) (dir : Bytes) → IsGuarded (add_component comps dir)
unfolding add_component
add_component-IsGuarded comps dir = ground (arith, pop_back-IsGuarded comps)

walk-IsGuarded : (path : Bytes) (comps : List Bytes) (dir : Bytes) → IsGuarded (walk comps dir path)
unfolding walk
walk-IsGuarded [] comps dir = add_component-IsGuarded comps dir
walk-IsGuarded (c ∷ cs) comps dir =
    let closed =
      bind-IsGuarded (add_component comps dir) (λ l. walk l [] cs)
        (add_component-IsGuarded comps dir) (λ l e. walk-IsGuarded cs l []) in
    let longer = walk-IsGuarded cs comps (dir ++ c ∷ []) in
    elim (Bool-cases (c == b'/')) [ inl slash ↦ rw slash closed | inr other ↦ rw other longer ]

pub convert_to_absolute_path-IsGuarded :
    (boost : BoostPath) (path : Bytes) → IsGuarded (convert_to_absolute_path boost path)
unfolding convert_to_absolute_path
convert_to_absolute_path-IsGuarded boost path =
    bind-IsGuarded (walk [] [] _) _ (walk-IsGuarded _ [] []) (λ l e. tt)

module _ (boost : BoostPath) (laws : ParentLaws boost) where
  get_request_handler-err :
      (server : Server) (uri : Bytes) {f : Fault}
      → convert_to_absolute_path boost uri ≡ err f
      → get_request_handler boost server uri ≡ err f
  unfolding get_request_handler
  get_request_handler-err server uri e = rw (get_request_handler, e) refl

  -- The search for a handler has enough fuel.
  get_request_handler-IsGuarded :
      (server : Server) (uri : Bytes)
      → IsGuarded (get_request_handler boost server uri >>= pointer_found)
  get_request_handler-IsGuarded server uri = go (convert_to_absolute_path boost uri) refl
    where
      go :
          (path : Result Bytes)
          → convert_to_absolute_path boost uri ≡ path
          → IsGuarded (get_request_handler boost server uri >>= pointer_found)
      go (ok path) e =
          let (_, _, _, found) = get_request_handler-answers boost laws server uri path e in
          rw found tt
      go (err f) e = rw (get_request_handler-err server uri e) (
          IsGuarded-err (convert_to_absolute_path boost uri)
            (convert_to_absolute_path-IsGuarded boost uri) e)

  pub look_up-IsGuarded :
      (t : Tribool) (z : ℤ) (server : Server) (uri : Bytes) (handler : Option (Option Pointer))
      → IsGuarded (look_up boost t z server uri handler)
  unfolding look_up
  look_up-IsGuarded is_true (pos n) server uri handler =
      let search = get_request_handler boost server uri in
      subst IsGuarded (bind_assoc search pointer_found (λ pointer. ok (some pointer))) (
        bind-IsGuarded (search >>= pointer_found) (λ pointer. ok (some pointer))
          (get_request_handler-IsGuarded server uri) (λ p e. tt))
  look_up-IsGuarded is_true (negsuc n) server uri handler = tt
  look_up-IsGuarded is_false z server uri handler = tt
  look_up-IsGuarded indeterminate z server uri handler = tt
