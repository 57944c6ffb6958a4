-- ===== src/Lib.antt =====
-- A model of the web server of this repository, with what makes its parts correct.
--
-- A connection is read by a session (src/session.cc), which hands the bytes of each read to the request
-- parser (src/request_parser.cc) and asks the server (src/server.cc) for the handler of the request's
-- path. The server fills its tables at the start, from the configuration that the configuration parser
-- (src/config_parser.cc) reads; the utilities (src/utils.cc) look fields up and bring paths into a
-- normal form. The handlers (src/handlers) answer the requests.
--
--   * Prelude and Standard: byte strings as lists of numbers below 256, results, lists over the native
--     numbers; `std::stoi`, `std::atoi` and `std::map` of the C++ library.
--   * RequestParser: `request_parser::consume` (Machine), the loop of `parse` and `reset` (Parse),
--     `translate` and the whole of `parse` (Translate), the character classes (Chars). Wire describes requests as they are written,
--     independently of the parser.
--   * ConfigParser: `NginxConfig` (Config), `ParseToken` (Token), `Parse` on a stream (Loop). Source
--     describes configuration files as they are written.
--   * Utils: `configLookup` and `getPortNumber` (Lookup), `convertToAbsolutePath` (FilePath),
--     `show_error_page` (ErrorPage).
--   * Http: the message library as a record of operations, the laws that the code relies on, and what the
--     world outside answers during one call of a handler. HttpClient: `perform_request`.
--   * Handlers: the handler classes and what their constructors take from a configuration, and
--     `handle_request` of each class: the short ones and static files (Pages, StaticFile), the reverse
--     proxy (ReverseProxy, with Proxying), the meme handler (Meme: Patterns for its regular expressions,
--     Upload and Actions for its pages, Styles for the page of all memes; Multipart for the parts of a
--     form), the status page (Status); Dispatch chooses by the class.
--   * Server: the tables (State), `getHandlers`, `create_and_add_handler` and `get_handler_type`
--     (Registry), `log_request` and `log_meme` (Metrics), `get_request_handler` (Routing).
--   * Session: what the read callbacks decide (Session), the members and the callbacks as functions from
--     the server and the session to both (Callbacks), and the server with all its sessions as a step
--     relation (Run). Guarded has the lemmas on the pointers and the fuel of every function that a
--     callback calls.
--   * Startup: the constructor of `server`, `Parse` on a file name, and `main`.
--   * Tests: runs on concrete inputs, and the theorems applied to them.
--
-- Undefined behaviour of C++ is a value: `back`, `pop_back` or `[0]` of an empty container, `top` of an
-- empty stack, a variable that was never set, a signed overflow. A definition that may meet it returns
-- a `Result`. A `char` is signed; an `int` has 32 bits. Pointers to handlers are places in the list of
-- the handlers allocated so far, as nothing frees one while the server runs. The stack of pointers in
-- `Parse` is the configuration on top and those around it, each taken to its place when it is popped.
--
-- Fuel: the loop of `Parse` gets two rounds more than the text has bytes, since every round but the
-- last two takes a byte; `get_request_handler` gets one round more than the path has bytes, since every
-- parent path is shorter; the rewriting of a body gets one round more than the body has bytes, since
-- every round passes over an occurrence, which is not empty.
--
-- Streams: a form is the list of lines that `std::getline` takes from it (`lines_from`).
--
-- A handler returns its response, the server, and the images that it wrote. A step of Run is one
-- callback, or a new connection. An exception that a callback lets through is a fault: it ends the program,
-- as the threads of the pool catch nothing. The sums and numbers of the status page are those of `int`;
-- its quotient by a power of ten is the first digit.
--
-- Parameters: the functions of `boost::filesystem::path` (the record `BoostPath`),
-- `std::filesystem::is_directory`, the messages of Boost.Beast (`Http`), and what files, folders, the
-- network, `boost::trim` and the UUID generator answer (`World`, `Host`). The theorems that rely on parent
-- paths or on messages name the laws (`ParentLaws`, `KeepsAbsolute`, `RequestLaws`), and Tests/Posix and
-- Tests/Messages give functions that satisfy them.
--
-- Not modelled: sockets, threads, signals, the destructor of `server`, whose first `delete` is undefined as
-- `RequestHandler` has no virtual destructor, and logging, apart from the
-- handler that `log_session_metric` reads; `TokenTypeAsString`, which serves the log; the wrapper of a socket. A
-- callback runs after the one before it of its session has returned, which the code leaves to the
-- scheduler where `write` counts a request behind the start of its write; and two sessions do not
-- log memes at once. A handler that does not know its server does not arise, as the server is set before
-- the handler is stored; the answers for that case are modelled by themselves.
pub mod Prelude
pub mod Standard
pub mod Http
pub mod HttpClient
pub mod RequestParser
pub mod ConfigParser
pub mod Utils
pub mod Handlers
pub mod Server
pub mod Session
pub mod Startup
mod Tests
