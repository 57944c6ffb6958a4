-- ===== src/Tests/ConfigExamples.antt =====
-- The theorems on the configuration parser, on small files.
use aite_cs.Prelude.{
  All, inl, inr, ℕ, Bool, true, false, not, ◌&&◌, [], ◌∷◌, ok, err, empty_container, ◌≡◌, ◌≢◌, refl,
  arith, codes, ◌==◌,
}
use aite_cs.ConfigParser.Config.{nil, statement, null, emplace_back, push_token, reset_child}
use aite_cs.ConfigParser.Token.{start, quoted_string, parse_token, round, at_end}
use aite_cs.ConfigParser.Tokens.{good_stream}
use aite_cs.ConfigParser.Source.{
  plain, quoted, Gap, blank, remark, IsSpace, Source, end, simple, nested, text, config_of, IsInner,
  IsFirst, IsSource,
}
use aite_cs.ConfigParser.Loop.{
  returned, out_of_fuel, parse, turn, again, on_token, on_top, push_config, pop, increment,
  decrement, ends_quoted,
}
use aite_cs.ConfigParser.Append.{at_state}
use aite_cs.ConfigParser.Progress.{parse-total}
use aite_cs.ConfigParser.Shape.{IsWellFormed, empty}
use aite_cs.ConfigParser.Nesting.{parse-IsWellFormed, parse-empty_container}
use aite_cs.ConfigParser.RoundTrip.{parse-text}
use aite_cs.ConfigParser.Quirks.{parse_token-single, turn-quoted_first, parse-last_character}

abbrev pub passes_inner : ℕ → Bool
passes_inner c =
    not (c == b' ')
    && not (c == b'\t')
    && not (c == b'\n')
    && not (c == b';')
    && not (c == b'{')
    && not (c == b'}')

pub inner : (c : ℕ) → passes_inner c ≡ true → IsInner c
inner c h = ground arith

pub first :
    (c : ℕ)
    → passes_inner c ≡ true
    → (not (c == b'#') && not (c == b'"') && not (c == b'\'') && not (c == b'\r')) ≡ true
    → IsFirst c
first c h k = (inner c h, ground arith, ground arith, ground arith, ground arith)

-- A space; and the end of a line, with the indentation of the next one.
abbrev pub space : Gap
space = blank b' ' ∷ []

pub space-All : All IsSpace space
space-All = (inl (inl refl), tt)

abbrev pub line : Gap
line = blank b'\n' ∷ blank b' ' ∷ []

pub line-All : All IsSpace line
line-All = (inl (inr (inr refl)), (inl (inl refl), tt))

-- A remark, a port, and a location with a quoted root, over several lines.
abbrev server_source : Source
server_source =
    simple (remark (codes "r") b'\n' ∷ []) (codes "pt") ((space, plain (codes "80")) ∷ []) [] (
      nested line (codes "loc") ((space, plain (codes "/x")) ∷ []) space
        (simple line (codes "rt") ((space, quoted (codes "a b")) ∷ []) [] (end line)) (end line))

server_source-IsSource : IsSource server_source
server_source-IsSource = (
  (
    ((((λ e. omega (arith, e), λ e. omega (arith, e)), tt), inl refl), tt),
    (first _ refl refl, (inner _ refl, tt)),
    (space-All, inl refl, (first _ refl refl, (inner _ refl, tt)), tt),
    tt,
    tt,
  ),
  (
    (
      line-All,
      (first _ refl refl, (inner _ refl, (inner _ refl, tt))),
      (space-All, inl refl, (first _ refl refl, (inner _ refl, tt)), tt),
      space-All,
      inl refl,
    ),
    (
      (
        line-All,
        (first _ refl refl, (inner _ refl, tt)),
        (
          space-All,
          inl refl,
          (λ e. omega (arith, e), (λ e. omega (arith, e), (λ e. omega (arith, e), tt))),
          tt,
        ),
        tt,
        tt,
      ),
      line-All,
    ),
    line-All,
  ),
)

server_text : text server_source [] ≡ codes "#r\npt 80;\n loc /x {\n rt \"a b\";\n }\n "
server_text = refl

parse-text_example :
    parse (text server_source []) nil ≡ ok (returned true (config_of server_source))
parse-text_example = parse-text server_source nil server_source-IsSource

parse-total_example : parse (codes "a { b") nil ≢ ok out_of_fuel
parse-total_example = parse-total (codes "a { b") nil

refused_run :
    parse (codes "a b;;") nil
    ≡ ok (returned false (statement (codes "a" ∷ codes "b" ∷ []) null nil))
unfolding parse on_token parse_token round at_end on_top push_token emplace_back push_config
    reset_child increment pop decrement
refused_run = refl

parse-IsWellFormed_example : IsWellFormed (statement (codes "a" ∷ codes "b" ∷ []) null nil)
parse-IsWellFormed_example =
    parse-IsWellFormed (codes "a b;;") nil false (statement (codes "a" ∷ codes "b" ∷ []) null nil)
      empty refused_run

faulty_run : parse (codes "\"a\";") nil ≡ err empty_container
unfolding parse on_token parse_token round at_end on_top push_token emplace_back push_config
    reset_child increment pop decrement
faulty_run = refl

parse-empty_container_example : empty_container ≡ empty_container
parse-empty_container_example =
    parse-empty_container (codes "\"a\";") nil empty_container empty faulty_run

parse_token-single_example : parse_token (good_stream (codes "'ab';")) ≡ record {
  token_type = quoted_string;
  value = codes "'aabb''";
  input = good_stream (codes ";");
}
parse_token-single_example = parse_token-single (codes "ab") (codes ";") (
  (λ e. omega (arith, e), λ e. omega (arith, e)),
  ((λ e. omega (arith, e), λ e. omega (arith, e)), tt),
)

semicolon_ends : ends_quoted b';' ≡ true
unfolding ends_quoted
semicolon_ends = refl

turn-quoted_first_example :
    (turn (at_state (statement (codes "a" ∷ []) null nil) [] start 0 (codes "\"b\";"))
      ≡ ok (
          again (
            at_state
              (statement (codes "a" ∷ codes "\"b\"" ∷ []) null nil)
              []
              quoted_string
              0
              (codes ";"))))
    × (turn (at_state nil [] start 0 (codes "\"b\";")) ≡ err empty_container)
turn-quoted_first_example =
    turn-quoted_first nil (codes "a" ∷ []) null [] start 0 (codes "b") b';' []
      ((λ e. omega (arith, e), tt)) semicolon_ends

parse-last_character_example :
    parse (codes "a;x") nil ≡ ok (returned true (statement (codes "a" ∷ []) null nil))
parse-last_character_example =
    parse-last_character (simple [] (codes "a") [] [] (end [])) nil b'x'
      ((tt, (first _ refl refl, tt), tt, tt, tt), tt) (first _ refl refl)
