-- ===== src/ConfigParser/Nesting.antt =====
-- The loop of `Parse`: every statement that it builds has a token, and it never uses an empty stack.
use aite_cs.Prelude.{
  ℕ, zero, suc, Bool, true, false, List, [], ◌∷◌, Bytes, All, Result, ok, err, empty_container,
  Fault, ◌≡◌, refl, subst,
}
use aite_cs.ConfigParser.Config.{NginxConfig}
use aite_cs.ConfigParser.Loop.{
  ConfigStack, ParseState, Turn, turn, Outcome, returned, out_of_fuel, parse_loop, returns, parse,
  root, close,
}
use aite_cs.ConfigParser.Progress.{
  parse_loop-again, parse_loop-true, parse_loop-false, parse_loop-err,
}
use aite_cs.ConfigParser.Shape.{IsWellFormed, reset_child-Changed}
use aite_cs.ConfigParser.Steady.{
  Fits, IsOpen, IsRooted, IsSteady, breaks, ends, faulty, inside, outside, steps, turn-IsSteady,
}

-- What the loop may return from a state that fits.
data IsSound : Result Outcome → Type 0 where
  returns_config : {b : Bool} {c : NginxConfig} → IsWellFormed c → IsSound (ok (returned b c))
  stops : IsSound (ok out_of_fuel)
  faulted : IsSound (err empty_container)

close-IsWellFormed :
    (top : NginxConfig) (outer : List NginxConfig)
    → IsWellFormed top
    → All IsOpen outer
    → (c : NginxConfig) × (close top outer ≡ ok c) × IsWellFormed c
unfolding close
close-IsWellFormed top [] w o = (top, refl, w)
close-IsWellFormed top (parent ∷ outer) w ((ne, wp), o) =
    let c = reset_child-Changed parent top ne wp w in
    let (r, e, wr) = close-IsWellFormed c.config outer c.wf o in (r, rw (c.done, e), wr)

root-IsWellFormed :
    {stack : ConfigStack}
    → IsRooted stack
    → (c : NginxConfig) × (root stack ≡ ok c) × IsWellFormed c
unfolding root
root-IsWellFormed (inside {top} {outer} w o) = close-IsWellFormed top outer w o
root-IsWellFormed (outside {config} w) = (config, refl, w)

returns-IsSound : (b : Bool) (s : ParseState) → IsRooted s.config_stack → IsSound (returns b s)
unfolding returns
returns-IsSound b s r = let (c, e, w) = root-IsWellFormed r in rw e (returns_config w)

parse_loop-IsSound :
    (fuel : ℕ) (s : ParseState)
    → Fits s.config_stack s.bracket_ctr s.last_token_type
    → IsSound (parse_loop fuel s)
parse_loop-IsSound zero s f = unfold parse_loop in stops
parse_loop-IsSound (suc fuel) s f =
    go (turn s) (turn-IsSteady s f) refl (λ t. parse_loop-IsSound fuel t)
  where
    go :
        (r : Result Turn)
        → IsSteady r
        → turn s ≡ r
        → ((t : ParseState)
            → Fits t.config_stack t.bracket_ctr t.last_token_type
            → IsSound (parse_loop fuel t))
        → IsSound (parse_loop (suc fuel) s)
    go r (steps {s = t} g) e ih = rw (parse_loop-again fuel s t e) (ih t g)
    go r (ends {s = t} g) e ih = rw (parse_loop-true fuel s t e) (returns-IsSound true t g)
    go r (breaks {s = t} g) e ih = rw (parse_loop-false fuel s t e) (returns-IsSound false t g)
    go r faulty e ih = rw (parse_loop-err fuel s empty_container e) faulted

parse-IsSound :
    (text : Bytes) (config : NginxConfig) → IsWellFormed config → IsSound (parse text config)
unfolding parse
parse-IsSound text config w = parse_loop-IsSound _ _ (inside w tt refl (λ e. cc))

IsSound-config :
    {r : Result Outcome} (b : Bool) (c : NginxConfig)
    → IsSound r
    → r ≡ ok (returned b c)
    → IsWellFormed c
IsSound-config b c (returns_config {c = c'} w) e = subst IsWellFormed (cc) w
IsSound-config b c stops e = cc
IsSound-config b c faulted e = cc

-- Every statement, at every depth, of the configuration that `Parse` leaves behind has a token, also
-- when it returns false, if that holds of the configuration that it was given.
pub parse-IsWellFormed :
    (text : Bytes) (config : NginxConfig) (b : Bool) (c : NginxConfig)
    → IsWellFormed config
    → parse text config ≡ ok (returned b c)
    → IsWellFormed c
parse-IsWellFormed text config b c w e = IsSound-config b c (parse-IsSound text config w) e

IsSound-err : {r : Result Outcome} (e : Fault) → IsSound r → r ≡ err e → e ≡ empty_container
IsSound-err e (returns_config w) h = cc
IsSound-err e stops h = cc
IsSound-err e faulted h = cc

-- `Parse` never uses the top of an empty stack: brackets that do not match are met before. Its only
-- undefined behaviour is a token or a block that is added to the last statement where there is none.
pub parse-empty_container :
    (text : Bytes) (config : NginxConfig) (e : Fault)
    → IsWellFormed config
    → parse text config ≡ err e
    → e ≡ empty_container
parse-empty_container text config e w h = IsSound-err e (parse-IsSound text config w) h
