-- ===== src/Tests/Config.antt =====
-- The configuration parser on inputs like those of tests/config_parser.
use aite_cs.Prelude.{true, false, List, [], ◌∷◌, Bytes, codes, ok, err, empty_container, ◌≡◌, refl}
use aite_cs.ConfigParser.Config.{
  NginxConfig, nil, statement, null, block, emplace_back, push_token, reset_child,
}
use aite_cs.ConfigParser.Token.{parse_token, round, at_end}
use aite_cs.ConfigParser.Loop.{
  returned, parse, on_token, on_top, push_config, pop, increment, decrement,
}

-- Names all that a run of `parse` computes with.
config_parser : Unit {0}
unfolding parse on_token parse_token round at_end on_top push_token emplace_back push_config
    reset_child increment pop decrement
config_parser = tt

abbrev words : List Bytes → NginxConfig → NginxConfig
words ts rest = statement ts null rest

nested_text :
    parse (codes "# c\nserver {\n  port 80;\n  location /x H { root \"a b\"; }\n}\n") nil
    ≡ ok (
        returned true (
          statement
            (codes "server" ∷ [])
            (block (
              words (codes "port" ∷ codes "80" ∷ []) (
                statement
                  (codes "location" ∷ codes "/x" ∷ codes "H" ∷ [])
                  (block (words (codes "root" ∷ codes "\"a b\"" ∷ []) nil))
                  nil)))
            nil))
unfolding config_parser
nested_text = refl

refused :
    (parse (codes "foo") nil ≡ ok (returned false (words (codes "foo" ∷ []) nil)))
    × (parse (codes "server {}") nil
        ≡ ok (returned true (statement (codes "server" ∷ []) (block nil) nil)))
    × (parse (codes "foo bar;;") nil
        ≡ ok (returned false (words (codes "foo" ∷ codes "bar" ∷ []) nil)))
    × (parse (codes "foo \"blah\";\"") nil
        ≡ ok (returned false (words (codes "foo" ∷ codes "\"blah\"" ∷ []) nil)))
    × (parse (codes "\"foo\";") nil ≡ err empty_container)
    × (parse (codes "a; \"b\";") nil
        ≡ ok (returned true (words (codes "a" ∷ codes "\"b\"" ∷ []) nil)))
    × (parse (codes "foo 'ab';") nil
        ≡ ok (returned true (words (codes "foo" ∷ codes "'aabb''" ∷ []) nil)))
    × (parse (codes "a;x") nil ≡ ok (returned true (words (codes "a" ∷ []) nil)))
    × (parse (codes "foo;\n}") nil ≡ ok (returned false (words (codes "foo" ∷ []) nil)))
unfolding config_parser
refused = (refl, refl, refl, refl, refl, refl, refl, refl, refl)
