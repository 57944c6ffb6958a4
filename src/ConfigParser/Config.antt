-- ===== src/ConfigParser/Config.antt =====
-- include/config_parser.h: `NginxConfig`, `NginxConfigStatement`, and what `Parse` does to a list of
-- statements.
use aite_cs.Prelude.{List, [], ◌∷◌, ◌++◌, Bytes, Result, ok, err, ◌>>=◌, empty_container}

-- A configuration is its statements in order: each has tokens and perhaps a child block.
mutual
  pub data NginxConfig : Type 0 where
    nil : NginxConfig
    statement : List Bytes → Child → NginxConfig → NginxConfig

  -- `child_block_`, which is null or owns a configuration.
  pub data Child : Type 0 where
    null : Child
    block : NginxConfig → Child

-- `statements_.emplace_back(new NginxConfigStatement)`
unfoldable pub emplace_back : NginxConfig → NginxConfig
emplace_back nil = statement [] null nil
emplace_back (statement ts c rest) = statement ts c (emplace_back rest)

-- `statements_.back().get()->tokens_.push_back(token)`
unfoldable pub push_token : NginxConfig → Bytes → Result NginxConfig
push_token nil token = err empty_container
push_token (statement ts c nil) token = ok (statement (ts ++ token ∷ []) c nil)
push_token (statement ts c rest) token = do rest' ← push_token rest token; ok (statement ts c rest')

-- `statements_.back().get()->child_block_.reset(new_config)`
unfoldable pub reset_child : NginxConfig → NginxConfig → Result NginxConfig
reset_child nil new_config = err empty_container
reset_child (statement ts c nil) new_config = ok (statement ts (block new_config) nil)
reset_child (statement ts c rest) new_config = do
  rest' ← reset_child rest new_config
  ok (statement ts c rest')
