-- ===== src/Startup.antt =====
-- src/server_main.cc and the constructor of `server` in src/server.cc: from the command line to a server
-- that listens.
pub mod Listening
use aite_cs.Prelude.{
  ℕ, ◌-◌, ◌%◌, ◌^◌, Bool, true, false, List, [], ◌∷◌, Option, none, some, Bytes, if◌then◌else◌, ℤ,
  pos, negsuc, Result, ok, err, ◌>>=◌, unfinished, ◌==◌,
}
use aite_cs.ConfigParser.Config.{NginxConfig, nil}
use aite_cs.ConfigParser.Loop.{Outcome, returned, out_of_fuel, parse}
use aite_cs.Server.Registry.{get_handlers}
use aite_cs.Server.State.{Server, empty_server}
use aite_cs.Standard.Ints.{stoi}
use aite_cs.Utils.FilePath.{BoostPath}
use aite_cs.Utils.Lookup.{get_port_number}

-- What the operating system answers at the start: the contents of a file, `none` if it cannot be opened;
-- whether the directory `./memes/` and then `./memes/imgs` can be created; and whether an acceptor can be
-- opened at a port.
pub record Host : Type 0 where
  pub read_file : Bytes → Option Bytes
  pub creates_memes : Bool
  pub creates_imgs : Bool
  pub opens : ℕ → Bool

-- What the constructor of `server` leaves: an exception; a server that has returned early and accepts
-- nothing; or one that waits for connections at a port.
pub data Started : Type 0 where
  thrown : Started
  idle : Started
  listening : ℕ → Server → Started

-- A port of `tcp::endpoint` has 16 bits.
unfoldable pub to_port : ℤ → ℕ
to_port (pos n) = n % 2 ^ 16
to_port (negsuc n) = 2 ^ 16 - 1 - n % 2 ^ 16

abbrev pub is_minus_one : ℤ → Bool
is_minus_one (pos n) = false
is_minus_one (negsuc n) = n == 0

-- How a run of the program ends or goes on: a return value of `main`, with 0 also for an exception that
-- `main` catches, or a pool of so many threads that serve.
pub data Program : Type 0 where
  exited : ℕ → Program
  serving : ℕ → Started → Program

-- `i < thread_pool_size_`, where `i` is a `size_t` of 64 bits.
unfoldable pub pool_size : ℤ → ℕ
pool_size (pos n) = n
pool_size (negsuc n) = 2 ^ 64 - 1 - n

module _ (boost : BoostPath) (is_directory : Bytes → Bool) (host : Host) where
  -- From the port on.
  unfoldable pub listen : ℤ → NginxConfig → Result Started
  listen port_num config =
      if is_minus_one port_num
      then ok idle
      else if host.opens (to_port port_num)
      then (get_handlers boost is_directory empty_server config >>= λ s.
          ok (listening (to_port port_num) s))
      else ok thrown

  -- The constructor of `server`.
  unfoldable pub new_server : NginxConfig → Result Started
  new_server config =
      if host.creates_memes
      then if host.creates_imgs
        then (get_port_number config >>= λ port_num. listen port_num config)
        else ok idle
      else ok thrown

  -- `NginxConfigParser::Parse(file_name, config)`; `none` is `false`.
  unfoldable pub parse_file : Bytes → Result (Option NginxConfig)
  parse_file file_name = elim (host.read_file file_name) [
    | none ↦ ok none
    | some text ↦ do
      outcome ← parse text nil
      elim outcome [
        | returned success config ↦ ok (if success then some config else none)
        | out_of_fuel ↦ err unfinished
      ]
  ]

  unfoldable pub start_program : ℤ → NginxConfig → Result Program
  start_program num_threads config = do
    started ← new_server config
    elim started [ thrown ↦ ok (exited 0) | s ↦ ok (serving (pool_size num_threads) s) ]

  -- `main`, by its arguments behind the name of the program.
  unfoldable pub main : List Bytes → Result Program
  main (threads ∷ file_name ∷ []) = elim (stoi threads) [
    | none ↦ ok (exited 1)
    | some num_threads ↦ do
      parsed ← parse_file file_name
      elim parsed [ none ↦ ok (exited 1) | some config ↦ start_program num_threads config ]
  ]
  main _ = ok (exited 1)
