-- ===== src/Handlers/Pages.antt =====
-- src/handlers: `handle_request` of the handlers for echo, static files, health, sleep and unknown paths.
use aite_cs.Prelude.{Result, ok, ◌>>=◌, ◌++◌, Option, none, some, Bytes, codes}
use aite_cs.Handlers.StaticFile.{parse_content_type_from_uri, parse_path_from_uri}
use aite_cs.Http.{Http, World}
use aite_cs.Server.State.{Server}
use aite_cs.Utils.ErrorPage.{page, show_error_page}
use aite_cs.Utils.FilePath.{BoostPath}

module _ (http : Http) where
  open http use {
    Request, Response, new_response, set_result, set_header, set_content, prepare_payload, target,
    print,
  }

  -- A response of status 200 whose length is set by `prepare_payload`.
  unfoldable pub prepared : Bytes → Bytes → Response
  prepared content_type body = prepare_payload (
      set_content (set_header (set_result new_response 200) (codes "Content-Type") content_type)
        body)

  unfoldable pub handle_echo : Request → Response
  handle_echo req = page http 200 (codes "text/plain") (print req)

  unfoldable pub handle_not_found : Request → Response
  handle_not_found req =
      show_error_page http 404 (codes "Uri path " ++ target req ++ codes " not found")

  -- `parent` is `none` before `initHealth`.
  unfoldable pub handle_health : Option Server → Request → Response
  handle_health none req =
      show_error_page http 500 (codes "Health Handler was not correctly initialized")
  handle_health (some server) req = prepared (codes "text/plain") (codes "OK")

  -- After five seconds.
  unfoldable pub handle_sleep : Request → Response
  handle_sleep req = prepared (codes "text/plain") (codes "Slept for 5 seconds!\n")

  -- The file, or an error page where it cannot be opened.
  unfoldable pub file_page : BoostPath → Option Bytes → Request → Response
  file_page boost none req =
      show_error_page http 404 (codes "File " ++ target req ++ codes " not found")
  file_page boost (some content) req =
      page http 200 (parse_content_type_from_uri boost (target req)) content

  unfoldable pub handle_static_file :
      BoostPath → World http → Bytes → Bytes → Request → Result Response
  handle_static_file boost world root location req = do
    path ← parse_path_from_uri boost root location (target req)
    ok (file_page boost (world.read_file path) req)
