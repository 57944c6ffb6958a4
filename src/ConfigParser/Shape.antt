-- ===== src/ConfigParser/Shape.antt =====
-- Configurations whose statements all have a token, and the changes of a last statement that keep them so.
use aite_cs.Prelude.{List, [], ◌∷◌, ◌++◌, Bytes, Result, ok, ◌≡◌, ◌≢◌, refl}
use aite_cs.ConfigParser.Config.{
  NginxConfig, nil, statement, null, block, emplace_back, push_token, reset_child,
}

-- Every statement, at every depth, has at least one token.
pub data IsWellFormed : NginxConfig → Type 0 where
  empty : IsWellFormed nil
  simple :
      {ts : List Bytes} {rest : NginxConfig}
      → ts ≢ []
      → IsWellFormed rest
      → IsWellFormed (statement ts null rest)
  nested :
      {ts : List Bytes} {config rest : NginxConfig}
      → ts ≢ []
      → IsWellFormed config
      → IsWellFormed rest
      → IsWellFormed (statement ts (block config) rest)

-- A change of the last statement went through.
pub record Changed (r : Result NginxConfig) : Type 0 where
  pub config : NginxConfig
  pub done : r ≡ ok config
  pub wf : IsWellFormed config
  pub nonempty : config ≢ nil

concat-ne : (ts : List Bytes) (t : Bytes) → ts ++ t ∷ [] ≢ []
concat-ne [] t e = cc
concat-ne (x ∷ ts) t e = cc

pub push_token-Changed :
    (top : NginxConfig) (token : Bytes)
    → top ≢ nil
    → IsWellFormed top
    → Changed (push_token top token)
unfolding push_token
push_token-Changed nil token ne wf = absurd (ne refl)
push_token-Changed (statement ts c nil) token ne (simple h w) = record {
  config = statement (ts ++ token ∷ []) null nil;
  done = refl;
  wf = simple (concat-ne ts token) w;
  nonempty = λ e. cc;
}
push_token-Changed (statement ts c nil) token ne (nested h k w) = record {
  config = statement (ts ++ token ∷ []) c nil;
  done = refl;
  wf = nested (concat-ne ts token) k w;
  nonempty = λ e. cc;
}
push_token-Changed (statement ts c (statement us d rest)) token ne (simple h w) =
    let later = push_token-Changed (statement us d rest) token (λ e. cc) w in
    record {
      config = statement ts null later.config;
      done = rw later.done;
      wf = simple h later.wf;
      nonempty = λ e. cc;
    }
push_token-Changed (statement ts c (statement us d rest)) token ne (nested h k w) =
    let later = push_token-Changed (statement us d rest) token (λ e. cc) w in
    record {
      config = statement ts c later.config;
      done = rw later.done;
      wf = nested h k later.wf;
      nonempty = λ e. cc;
    }

pub reset_child-Changed :
    (top x : NginxConfig)
    → top ≢ nil
    → IsWellFormed top
    → IsWellFormed x
    → Changed (reset_child top x)
unfolding reset_child
reset_child-Changed nil x ne wf wx = absurd (ne refl)
reset_child-Changed (statement ts c nil) x ne (simple h w) wx = record {
  config = statement ts (block x) nil;
  done = refl;
  wf = nested h wx w;
  nonempty = λ e. cc;
}
reset_child-Changed (statement ts c nil) x ne (nested h k w) wx = record {
  config = statement ts (block x) nil;
  done = refl;
  wf = nested h wx w;
  nonempty = λ e. cc;
}
reset_child-Changed (statement ts c (statement us d rest)) x ne (simple h w) wx =
    let later = reset_child-Changed (statement us d rest) x (λ e. cc) w wx in
    record {
      config = statement ts null later.config;
      done = rw later.done;
      wf = simple h later.wf;
      nonempty = λ e. cc;
    }
reset_child-Changed (statement ts c (statement us d rest)) x ne (nested h k w) wx =
    let later = reset_child-Changed (statement us d rest) x (λ e. cc) w wx in
    record {
      config = statement ts c later.config;
      done = rw later.done;
      wf = nested h k later.wf;
      nonempty = λ e. cc;
    }

-- A new statement takes its first token.
pub first_token-Changed :
    (top : NginxConfig) (token : Bytes)
    → IsWellFormed top
    → Changed (push_token (emplace_back top) token)
unfolding push_token emplace_back
first_token-Changed nil token empty = record {
  config = statement (token ∷ []) null nil;
  done = refl;
  wf = simple (λ e. cc) empty;
  nonempty = λ e. cc;
}
first_token-Changed (statement ts c nil) token (simple h w) = record {
  config = statement ts null (statement (token ∷ []) null nil);
  done = refl;
  wf = simple h (simple (λ e. cc) empty);
  nonempty = λ e. cc;
}
first_token-Changed (statement ts c nil) token (nested h k w) = record {
  config = statement ts c (statement (token ∷ []) null nil);
  done = refl;
  wf = nested h k (simple (λ e. cc) empty);
  nonempty = λ e. cc;
}
first_token-Changed (statement ts c (statement us d rest)) token (simple h w) =
    let later = first_token-Changed (statement us d rest) token w in
    record {
      config = statement ts null later.config;
      done = rw later.done;
      wf = simple h later.wf;
      nonempty = λ e. cc;
    }
first_token-Changed (statement ts c (statement us d rest)) token (nested h k w) =
    let later = first_token-Changed (statement us d rest) token w in
    record {
      config = statement ts c later.config;
      done = rw later.done;
      wf = nested h k later.wf;
      nonempty = λ e. cc;
    }
