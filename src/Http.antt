-- ===== src/Http.antt =====
-- What the code uses of Boost.Beast: the messages `http::request` and `http::response`, and the reason
-- phrases of the statuses. They are parameters, by their operations; so is what the world outside of the
-- program answers while a request is handled.
use aite_cs.Prelude.{ℕ, Bool, List, Option, some, Bytes, ◌≡◌}

pub record Http : Type 1 where
  pub Request : Type 0
  pub new_request : Request
  -- `method(string_to_verb(s))`, `none` for the exception of an unknown verb; `version(n)`, `target(s)`, `set(name, value)` and `body() = s`
  pub set_method : Request → Bytes → Option Request
  pub set_version : Request → ℕ → Request
  pub set_target : Request → Bytes → Request
  pub set_field : Request → Bytes → Bytes → Request
  pub set_body : Request → Bytes → Request
  -- `clear()`
  pub clear : Request → Request
  -- `method() == http::verb::post`, `target()`, `body()`, and `find(name)`, `none` where it is `end()`
  pub is_post : Request → Bool
  pub target : Request → Bytes
  pub body : Request → Bytes
  pub find_field : Request → Bytes → Option Bytes
  -- `operator<<`
  pub print : Request → Bytes
  pub Response : Type 0
  pub new_response : Response
  -- `result(n)`, `set(name, value)`, `content_length(n)`, `body() = s`, `prepare_payload()` and `chunked(false)`
  pub set_result : Response → ℕ → Response
  pub set_header : Response → Bytes → Bytes → Response
  pub set_content_length : Response → ℕ → Response
  pub set_content : Response → Bytes → Response
  pub prepare_payload : Response → Response
  pub unchunk : Response → Response
  -- `result_int()`, `result()`, which is 0 for a number that is no status, `body()`, `find(name)` and
  -- `operator<<`
  pub result_int : Response → ℕ
  pub result : Response → ℕ
  pub content : Response → Bytes
  pub find_header : Response → Bytes → Option Bytes
  pub print_response : Response → Bytes
  -- `operator<<` of a status
  pub reason : ℕ → Bytes

-- What the end of a connection reports.
pub data Ending : Type 0 where
  no_error not_connected other_error : Ending

-- The network, as a connection of Boost.Asio meets it, with `none` for an exception: the addresses of a
-- host at a port, the address that is connected to, whether a request can be written there, the response
-- that is read after that request, and the error of `shutdown`.
pub record Network (http : Http) : Type 0 where
  pub resolve : Bytes → Bytes → Option (List Bytes)
  pub connect : List Bytes → Option Bytes
  pub write : Bytes → http.Request → Bool
  pub read : Bytes → http.Request → Option http.Response
  pub shutdown : Bytes → Ending

-- What one call of a handler gets from outside: `boost::trim`, the contents of a file, `none` where it
-- cannot be opened, the network, a fresh UUID, whether
-- `create_directories` goes through for the folder of a path, and whether a file can be opened and
-- written there.
pub record World (http : Http) : Type 0 where
  pub trim : Bytes → Bytes
  pub read_file : Bytes → Option Bytes
  pub network : Network http
  pub uuid : Bytes
  pub creates_folder : Bytes → Bool
  pub writes_file : Bytes → Bool

-- What the code relies on of a request: `target` and `body` read back what was set, and the other
-- operations leave them alone. `clear` removes the fields only.
pub record RequestLaws (http : Http) : Type 0 where
  pub target-set_target : (req : http.Request) (t : Bytes) → http.target (http.set_target req t) ≡ t
  pub target-set_field :
      (req : http.Request) (n v : Bytes) → http.target (http.set_field req n v) ≡ http.target req
  pub target-set_body :
      (req : http.Request) (b : Bytes) → http.target (http.set_body req b) ≡ http.target req
  pub target-clear : (req : http.Request) → http.target (http.clear req) ≡ http.target req
  pub body-set_body : (req : http.Request) (b : Bytes) → http.body (http.set_body req b) ≡ b
  pub body-set_method :
      (req : http.Request) (m : Bytes) {named : http.Request}
      → http.set_method req m ≡ some named
      → http.body named ≡ http.body req
  pub body-set_version :
      (req : http.Request) (n : ℕ) → http.body (http.set_version req n) ≡ http.body req
  pub body-set_target :
      (req : http.Request) (t : Bytes) → http.body (http.set_target req t) ≡ http.body req
  pub body-set_field :
      (req : http.Request) (n v : Bytes) → http.body (http.set_field req n v) ≡ http.body req
  pub set_body_twice :
      (req : http.Request) (a b : Bytes)
      → http.set_body (http.set_body req a) b ≡ http.set_body req b
