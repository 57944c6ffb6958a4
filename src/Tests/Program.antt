-- ===== src/Tests/Program.antt =====
-- A configuration file with an echo handler, the program that it starts, and a run of its server.
use aite_cs.Prelude.{
  not, ◌==◌, ◌≢◌, inl, Bool, true, false, ◌&&◌, ◌%◌, ◌^◌, [], ◌∷◌, some, Bytes, All, codes, equal,
  ok, ◌≡◌, refl, arith,
}
use aite_cs.ConfigParser.Source.{
  plain as word, remark, Source, end, simple, nested, text, config_of, IsInner, IsSource,
}
use aite_cs.Handlers.{echo}
use aite_cs.Server.Registry.{
  new_handler, add_handler, create_and_add_handler, try_types, add_location, add_locations,
  add_server, get_handlers,
}
use aite_cs.Server.State.{Server, empty_server}
use aite_cs.Standard.Ints.{IsDecimal}
use aite_cs.Standard.Map.{find, assign, less_bytes, bytes_key}
use aite_cs.Startup.{Host, listening, serving, main}
use aite_cs.Startup.Listening.{main-listening}
use aite_cs.Utils.FilePath.{convert_to_absolute_path, walk, add_component, pop_back, unquote}
use aite_cs.Utils.Lookup.{Finds, field, into}
use aite_cs.Tests.ConfigExamples.{passes_inner, inner, first, space, space-All, line, line-All}
use aite_cs.Tests.Posix.{posix}

abbrev all_pass : Bytes → Bool
all_pass [] = true
all_pass (c ∷ cs) = passes_inner c && all_pass cs

inner-All : (cs : Bytes) → all_pass cs ≡ true → All IsInner cs
inner-All [] h = tt
inner-All (c ∷ cs) h = (inner c (ground arith), inner-All cs (ground arith))

abbrev pub echo_source : Source
echo_source =
    nested (remark (codes " One server.") b'\n' ∷ []) (codes "server") [] space
      (simple line (codes "port") ((space, word (codes "80")) ∷ []) [] (
        nested line (codes "location")
          ((space, word (codes "/a")) ∷ (space, word (codes "EchoHandler")) ∷ []) space (end [])
          (end line)))
      (end line)

echo_text :
    text echo_source []
    ≡ codes "# One server.\nserver {\n port 80;\n location /a EchoHandler {}\n }\n "
echo_text = refl

abbrev no_line_end : Bytes → Bool
no_line_end [] = true
no_line_end (c ∷ cs) = not (c == b'\n') && not (c == b'\r') && no_line_end cs

no_line_end-All : (cs : Bytes) → no_line_end cs ≡ true → All (λ c. (c ≢ b'\n') × (c ≢ b'\r')) cs
no_line_end-All [] h = tt
no_line_end-All (c ∷ cs) h = ((ground arith, ground arith), no_line_end-All cs (ground arith))

echo_source-IsSource : IsSource echo_source
echo_source-IsSource = (
  (
    ((no_line_end-All (codes " One server.") refl, inl refl), tt),
    (first _ refl refl, inner-All (codes "erver") refl),
    tt,
    space-All,
    inl refl,
  ),
  (
    (
      line-All,
      (first _ refl refl, inner-All (codes "ort") refl),
      (space-All, inl refl, (first _ refl refl, inner-All (codes "0") refl), tt),
      tt,
      tt,
    ),
    (
      (
        line-All,
        (first _ refl refl, inner-All (codes "ocation") refl),
        (
          space-All,
          inl refl,
          (first _ refl refl, inner-All (codes "a") refl),
          (space-All, inl refl, (first _ refl refl, inner-All (codes "choHandler") refl), tt),
        ),
        space-All,
        inl refl,
      ),
      tt,
      line-All,
    ),
  ),
  line-All,
)

abbrev pub no_directory : Bytes → Bool
no_directory path = false

abbrev pub started_server : Server
started_server = record empty_server {
  handlers = echo ∷ [];
  location_to_handler_ = (codes "/a", 0) ∷ [];
  handler_to_prefixes_ = (codes "EchoHandler", codes "/a" ∷ []) ∷ [];
  type_to_handler_ = (codes "EchoHandler", 0 ∷ []) ∷ [];
}

echo_made : get_handlers posix no_directory empty_server (config_of echo_source) ≡ ok started_server
unfolding get_handlers add_server add_locations add_location try_types create_and_add_handler
    new_handler add_handler convert_to_absolute_path walk add_component pop_back unquote equal find
    assign less_bytes
echo_made = refl

abbrev pub open_host : Host
open_host = record {
  read_file = λ name. some (text echo_source []);
  creates_memes = true;
  creates_imgs = true;
  opens = λ port. true;
}

four-IsDecimal : IsDecimal (codes "4")
four-IsDecimal = (λ e. cc, (refl, tt), omega arith)

eighty-IsDecimal : IsDecimal (codes "80")
eighty-IsDecimal = (λ e. cc, (refl, (refl, tt)), omega arith)

port_80 : Finds (codes "port") (config_of echo_source) (codes "server" ∷ []) (codes "80" ∷ [])
port_80 = into [] [] [] refl tt (field [] _ refl tt)

pub echo_started :
    main posix no_directory open_host (codes "4" ∷ codes "config" ∷ [])
    ≡ ok (serving 4 (listening (80 % 2 ^ 16) started_server))
echo_started =
    main-listening posix no_directory open_host (codes "4") (codes "config") (codes "80")
      echo_source started_server refl echo_source-IsSource four-IsDecimal port_80 eighty-IsDecimal
      (refl, refl, refl) echo_made

main-listening_example :
    main posix no_directory open_host (codes "4" ∷ codes "config" ∷ [])
    ≡ ok (serving 4 (listening (80 % 2 ^ 16) started_server))
main-listening_example =
    main-listening posix no_directory open_host (codes "4") (codes "config") (codes "80")
      echo_source started_server refl echo_source-IsSource four-IsDecimal port_80 eighty-IsDecimal
      (refl, refl, refl) echo_made
