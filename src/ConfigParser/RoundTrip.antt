-- ===== src/ConfigParser/RoundTrip.antt =====
-- `Parse` reads back what a file is meant to say, blocks nested to any depth.
use aite_cs.Prelude.{
  inl, inr, ℕ, suc, ◌+◌, true, false, List, [], ◌∷◌, Bytes, ok, ◌≡◌, refl, ◌∙◌, arith, length,
}
use aite_cs.ConfigParser.Config.{NginxConfig, nil, statement, null, block}
use aite_cs.ConfigParser.Token.{TokenType, start, start_block, end_block, statement_end, ended}
use aite_cs.ConfigParser.Source.{values, Source, end, simple, nested, text, config_of, IsSource}
use aite_cs.ConfigParser.Loop.{
  ParseState, return_true, on_token, turn, returned, returns, parse, root, is_word, may_open,
  may_close, may_end,
}
use aite_cs.ConfigParser.Tokens.{parse_token-eof}
use aite_cs.ConfigParser.Append.{
  Ends, done, step, gap-Ends, parse_loop-Ends, append, append-nil_config, append_assoc_config,
  at_state,
}
use aite_cs.ConfigParser.Statements.{head-Ends, marks_close, marks_end, marks_open}

-- The last token of a piece of a file.
abbrev pub after_source : TokenType → Source → TokenType
after_source last (end _) = last
after_source last (simple _ first ws _ later) = after_source statement_end later
after_source last (nested _ first ws _ inner later) = after_source end_block later

after_source-may_close :
    (src : Source) (last : TokenType)
    → may_close last ≡ true
    → may_close (after_source last src) ≡ true
after_source-may_close (end _) last h = h
after_source-may_close (simple _ first ws _ later) last h =
    after_source-may_close later statement_end refl
after_source-may_close (nested _ first ws _ inner later) last h =
    after_source-may_close later end_block refl

pub after_source-may_end :
    (src : Source) (last : TokenType)
    → (may_end last ≡ true)
    → may_end (after_source last src) ≡ true
after_source-may_end (end _) last h = h
after_source-may_end (simple _ first ws _ later) last h =
    after_source-may_end later statement_end refl
after_source-may_end (nested _ first ws _ inner later) last h =
    after_source-may_end later end_block refl

pub source-Ends :
    {u : ParseState} (src : Source) (outer : List NginxConfig) (n : ℕ) (top : NginxConfig)
    (last : TokenType) (rest : Bytes)
    → IsSource src
    → may_open last ≡ true
    → is_word last ≡ false
    → Ends u (at_state (append top (config_of src)) outer (after_source last src) n rest)
    → Ends u (at_state top outer last n (text src rest))
source-Ends {u} (end gap) outer n top last rest h opens other p =
    gap-Ends gap top outer last n rest h (rw append-nil_config at p)
source-Ends (simple gap first ws tail later) outer n top last rest (head, h) opens other p =
    let top' = append top (statement (first ∷ values ws) null nil) in
    head-Ends outer n gap first ws tail top last b';' _ head (inl refl) opens other (λ next word.
      step (marks_end outer n top' next _ word)
        (source-Ends later outer n top' statement_end rest h refl refl (rw append_assoc_config p)))
source-Ends (nested gap first ws tail inner later) outer n top last rest (head, h, k) opens other
      p =
    let ts = first ∷ values ws in
    let parent = append top (statement ts (block nil) nil) in
    let top' = append top (statement ts (block (config_of inner)) nil) in
    head-Ends outer n gap first ws tail top last b'{' _ head (inr refl) opens other (λ next word.
      step (marks_open outer n top ts next _ word) (
        source-Ends inner (parent ∷ outer) (suc n) nil start_block (b'}' ∷ text later rest) h refl
          refl
          (step
            (marks_close outer n top (config_of inner) ts _ _
              (after_source-may_close inner start_block refl))
            (source-Ends later outer n top' end_block rest k refl refl
              (rw append_assoc_config p)))))

eof-turn :
    (top : NginxConfig) (last : TokenType)
    → may_end last ≡ true
    → turn (at_state top [] last 0 [])
      ≡ ok (return_true (record (at_state top [] last 0 []) { config_file = ended }))
unfolding turn on_token
eof-turn top last h = rw (parse_token-eof, h)

-- Any file that is written as statements of plain and double-quoted words and of blocks, nested to any depth, with
-- blanks, line ends and remarks between them, is accepted, and the configuration that comes out is the one that
-- was meant, behind what was there before. Only where a word has to end, the gap behind it begins with a space, a
-- tab or a newline, or it is the mark that follows.
pub parse-text :
    (src : Source) (config : NginxConfig)
    → IsSource src
    → parse (text src []) config ≡ ok (returned true (append config (config_of src)))
unfolding parse
parse-text src config h =
    let last = after_source start src in
    parse_loop-Ends (length (text src []) + 2) _
      (source-Ends src [] 0 config start [] h refl refl (
        done (eof-turn (append config (config_of src)) last (after_source-may_end src start refl))))
      (omega arith)
    ∙ unfold returns root in refl
