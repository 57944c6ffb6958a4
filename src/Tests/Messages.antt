-- ===== src/Tests/Messages.antt =====
-- Messages with what the tests read of them, as an instance of the message library.
use aite_cs.Prelude.{
  some, ◌||◌, if◌then◌else◌, Bool-cases, inl, inr, ◌≡◌, ap, sym, ℕ, Bool, true, false, [], ◌∷◌,
  ◌++◌, none, Bytes, codes, equal, refl,
}
use aite_cs.Http.{not_connected, Http, RequestLaws, World}
use aite_cs.Standard.Map.{Map, find, assign, bytes_key}

pub record Letter : Type 0 where
  pub post : Bool
  pub address : Bytes
  pub fields : Map Bytes Bytes
  pub text : Bytes

pub record Reply : Type 0 where
  pub status : ℕ
  pub headers : Map Bytes Bytes
  pub text : Bytes

abbrev pub shown_fields : Map Bytes Bytes → Bytes
shown_fields [] = []
shown_fields ((name, value) ∷ m) = name ++ codes ": " ++ value ++ codes "\r\n" ++ shown_fields m

abbrev pub plain : Http
plain = record {
  Request = Letter;
  new_request = record { post = false; address = []; fields = []; text = [] };
  set_method = λ req m.
      if equal m (codes "GET") || equal m (codes "POST")
      then some (record req { post = equal m (codes "POST") })
      else none;
  set_version = λ req n. req;
  set_target = λ req t. record req { address = t };
  set_field = λ req n v. record req { fields = assign req.fields n v };
  set_body = λ req b. record req { text = b };
  clear = λ req. record req { fields = [] };
  is_post = λ req. req.post;
  target = λ req. req.address;
  body = λ req. req.text;
  find_field = λ req n. find req.fields n;
  print = λ req. shown_fields req.fields ++ req.text;
  Response = Reply;
  new_response = record { status = 200; headers = []; text = [] };
  set_result = λ r n. record r { status = n };
  set_header = λ r n v. record r { headers = assign r.headers n v };
  set_content_length = λ r n. r;
  set_content = λ r b. record r { text = b };
  prepare_payload = λ r. r;
  unchunk = λ r. r;
  result_int = λ r. r.status;
  result = λ r. r.status;
  content = λ r. r.text;
  find_header = λ r n. find r.headers n;
  print_response = λ r. shown_fields r.headers ++ r.text;
  reason = λ n. codes "Reason";
}

text_kept :
    (req : Letter) (m : Bytes) {named : Letter}
    → plain.set_method req m ≡ some named
    → named.text ≡ req.text
text_kept req m {named} e = elim (Bool-cases (equal m (codes "GET") || equal m (codes "POST"))) [
  | inl known ↦
      let same : some (record req { post = equal m (codes "POST") }) ≡ some named = rw known at e in
      let letter : record req { post = equal m (codes "POST") } ≡ named = cc in
      ap (λ (l : Letter). l.text) (sym letter)
  | inr unknown ↦ let bad = rw unknown at e in absurd (cc)
]

pub plain-RequestLaws : RequestLaws plain
plain-RequestLaws = record {
  target-set_target = λ req t. refl;
  target-set_field = λ req n v. refl;
  target-set_body = λ req b. refl;
  target-clear = λ req. refl;
  body-set_body = λ req b. refl;
  body-set_method = text_kept;
  body-set_version = λ req n. refl;
  body-set_target = λ req t. refl;
  body-set_field = λ req n v. refl;
  set_body_twice = λ req a b. refl;
}

-- No file can be read, no other server answers, and folders can be created.
abbrev pub quiet : World plain
quiet = record {
  trim = λ text. text;
  read_file = λ path. none;
  network = record {
    resolve = λ host port. none;
    connect = λ results. none;
    write = λ address req. false;
    read = λ address req. none;
    shutdown = λ address. not_connected;
  };
  uuid = codes "u1";
  creates_folder = λ path. true;
  writes_file = λ path. true;
}
