-- ===== src/Startup/Listening.antt =====
-- A well-formed configuration file makes the program serve, and what it serves is counted.
use aite_cs.Prelude.{
  codes, ℕ, ◌%◌, ◌^◌, Bool, true, List, [], ◌∷◌, some, Bytes, ℤ, Result, ok, bind-eq-ok, Bool-cases,
  Option-cases, inl, inr, ◌≡◌, refl, ap, ◌∙◌,
}
use aite_cs.ConfigParser.Config.{NginxConfig, nil}
use aite_cs.ConfigParser.RoundTrip.{parse-text}
use aite_cs.ConfigParser.Source.{Source, IsSource, text, config_of}
use aite_cs.Http.{Http}
use aite_cs.Server.Metrics.{served, occurrences}
use aite_cs.Server.Registered.{get_handlers-IsWellFormed}
use aite_cs.Server.Registry.{get_handlers}
use aite_cs.Server.State.{Server, empty_server}
use aite_cs.Session.Counted.{run-served}
use aite_cs.Session.Run.{Answer, System, Run}
use aite_cs.Standard.Ints.{IsDecimal, value_of, stoi, stoi-decimal}
use aite_cs.Startup.{
  Host, Started, thrown, idle, listening, Program, exited, serving, to_port, is_minus_one,
  pool_size, listen, new_server, parse_file, start_program, main,
}
use aite_cs.Utils.FilePath.{BoostPath}
use aite_cs.Utils.Lookup.{Finds, get_port_number, get_port_number-Finds}

module _ (boost : BoostPath) (is_directory : Bytes → Bool) (host : Host) where
  -- A file that is written as statements and blocks, over lines and with remarks, with a decimal port in its
  -- first server block, makes the program serve at that port, taken to 16 bits, with the handlers that `getHandlers` makes of it, on as many threads as the first argument says.
  pub main-listening :
      (threads file_name ds : Bytes) (src : Source) (server : Server)
      → host.read_file file_name ≡ some (text src [])
      → IsSource src
      → IsDecimal threads
      → Finds (codes "port") (config_of src) (codes "server" ∷ []) (ds ∷ [])
      → IsDecimal ds
      → (host.creates_memes ≡ true)
        × (host.creates_imgs ≡ true)
        × (host.opens (value_of 0 ds % 2 ^ 16) ≡ true)
      → get_handlers boost is_directory empty_server (config_of src) ≡ ok server
      → main boost is_directory host (threads ∷ file_name ∷ [])
        ≡ ok (serving (value_of 0 threads) (listening (value_of 0 ds % 2 ^ 16) server))
  unfolding main parse_file start_program new_server listen to_port pool_size
  main-listening threads file_name ds src server file wf t found d (memes, imgs, opens) made =
      let port = get_port_number-Finds (config_of src) ds found d in
      let read : parse_file boost is_directory host file_name ≡ ok (some (config_of src)) =
        rw (parse_file, file, parse-text src nil wf) refl in
      let started : new_server boost is_directory host (config_of src)
          ≡ ok (listening (value_of 0 ds % 2 ^ 16) server) =
        rw (new_server, memes, imgs, port, opens, made) refl in
      rw (main, stoi-decimal threads t, read, started) refl

  listen-listening :
      (z : ℤ) (config : NginxConfig) (port : ℕ) (server : Server)
      → listen boost is_directory host z config ≡ ok (listening port server)
      → get_handlers boost is_directory empty_server config ≡ ok server
  unfolding listen
  listen-listening z config port server e = elim (Bool-cases (is_minus_one z)) [
    | inl none_found ↦ let bad = rw none_found at e in absurd (cc)
    | inr a ↦ elim (Bool-cases (host.opens (to_port z))) [
      | inr shut ↦ let bad = rw (a, shut) at e in absurd (cc)
      | inl opened ↦
          let (s, made, there) =
            bind-eq-ok (get_handlers boost is_directory empty_server config) _
              (rw (a, opened) at e) in
          let same : s ≡ server = cc in made ∙ ap ok same
    ]
  ]

  new_server-listening :
      (config : NginxConfig) (port : ℕ) (server : Server)
      → new_server boost is_directory host config ≡ ok (listening port server)
      → get_handlers boost is_directory empty_server config ≡ ok server
  unfolding new_server listen
  new_server-listening config port server e = elim (Bool-cases host.creates_memes) [
    | inr no_memes ↦ let bad = rw no_memes at e in absurd (cc)
    | inl memes ↦ elim (Bool-cases host.creates_imgs) [
      | inr no_imgs ↦ let bad = rw (memes, no_imgs) at e in absurd (cc)
      | inl imgs ↦
          let (z, _, there) = bind-eq-ok (get_port_number config) _ (rw (memes, imgs) at e) in
          listen-listening z config port server there
    ]
  ]

  start_program-listening :
      (z : ℤ) (config : NginxConfig) (threads port : ℕ) (server : Server)
      → start_program boost is_directory host z config
        ≡ ok (serving threads (listening port server))
      → get_handlers boost is_directory empty_server config ≡ ok server
  unfolding start_program
  start_program-listening z config threads port server e =
      let (started, made, there) = bind-eq-ok (new_server boost is_directory host config) _ e in
      go started made there
    where
      go :
          (started : Started)
          → new_server boost is_directory host config ≡ ok started
          → elim started as (λ _. Result Program) [
            | thrown ↦ ok (exited 0)
            | s ↦ ok (serving (pool_size z) s)
          ]
            ≡ ok (serving threads (listening port server))
          → get_handlers boost is_directory empty_server config ≡ ok server
      go thrown made e = absurd (cc)
      go idle made e = absurd (cc)
      go (listening p s) made e =
          let same : listening p s ≡ listening port server = cc in
          new_server-listening config port server (made ∙ ap ok same)

  main-get_handlers :
      (arguments : List Bytes) (threads port : ℕ) (server : Server)
      → main boost is_directory host arguments ≡ ok (serving threads (listening port server))
      → (config : NginxConfig) × (get_handlers boost is_directory empty_server config ≡ ok server)
  unfolding main
  main-get_handlers [] threads port server e = absurd (cc)
  main-get_handlers (_ ∷ []) threads port server e = absurd (cc)
  main-get_handlers (_ ∷ _ ∷ _ ∷ _) threads port server e = absurd (cc)
  main-get_handlers (count ∷ file ∷ []) threads port server e = elim (Option-cases (stoi count)) [
    | inl no_number ↦ let bad = rw (main, no_number) at e in absurd (cc)
    | inr (z, number) ↦
        let (parsed, _, e1) =
          bind-eq-ok (parse_file boost is_directory host file) _ (rw (main, number) at e) in
        elim (Option-cases parsed) [
          | inl failed ↦ let bad = rw failed at e1 in absurd (cc)
          | inr (config, read) ↦
              (config, start_program-listening z config threads port server (rw read at e1))
        ]
  ]

  -- However the program was started, once it listens, its table of requests counts each pair of a target
  -- and a status as often as its sessions have answered with it, in every run.
  pub main-run :
      (http : Http) (arguments : List Bytes) (threads port : ℕ) (server : Server)
      (given : List Answer) (system : System http)
      → main boost is_directory host arguments ≡ ok (serving threads (listening port server))
      → Run http boost server given system
      → (k : Answer) → served system.server k ≡ occurrences k given
  main-run http arguments threads port server given system e run =
      let (config, made) = main-get_handlers arguments threads port server e in
      let w = get_handlers-IsWellFormed boost is_directory config server made in
      run-served http boost server given system w.pointing w.uncounted run
