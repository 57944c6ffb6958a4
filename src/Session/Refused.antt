-- ===== src/Session/Refused.antt =====
-- A header that the parser refuses: what the session knows of the request before it.
use aite_cs.Prelude.{
  ◌+◌, List, [], ◌∷◌, Bytes, codes, ok, err, uninitialised, inl, ◌≡◌, refl, sym, ap, ◌∙◌,
}
use aite_cs.Http.{Http, World, RequestLaws}
use aite_cs.RequestParser.Machine.{is_false}
use aite_cs.RequestParser.Parse.{Parsed, reset, read_request}
use aite_cs.Server.State.{Server}
use aite_cs.Session.{handle_read_header}
use aite_cs.Session.Body.{handle_read_header-bad_request}
use aite_cs.RequestParser.Translate.{parse, translated}
use aite_cs.Session.Callbacks.{
  Session, for_write, new_session, known, content_length_field, look_up, write, write_error,
  perform, on_read_header, on_write,
}
use aite_cs.Session.Effects.{write-Effect}
use aite_cs.Server.Metrics.{served, occurrences}
use aite_cs.Session.Run.{Answer, answered}
use aite_cs.Utils.ErrorPage.{show_error_page}
use aite_cs.Utils.FilePath.{BoostPath}

abbrev pub refusal : Bytes
refusal = codes "Invalid request headers or content length"

module _ (http : Http) (boost : BoostPath) (world : World http) where
  open http use {target, result, print_response, set_body, clear}

  -- The session writes the error page for the request that it had.
  on_read_header-refused :
      (server : Server) (session : Session http) (read : Bytes) (parsed : Parsed)
      → read_request session.state_ read ≡ ok parsed
      → parsed.result ≡ is_false
      → on_read_header http boost world server session read
        ≡ write_error http server (record session { state_ = parsed.state_ }) refusal
  unfolding on_read_header parse translated look_up perform
  on_read_header-refused server session read parsed e bad =
      let refuse : (field : Bytes)
          → handle_read_header is_false field (known session.request_handler_)
              (http.body session.request_) parsed.rest
            ≡ _ =
        λ field.
          (handle_read_header-bad_request is_false field (known session.request_handler_)
              (http.body session.request_) parsed.rest).1
            (inl refl) in
      rw (e, bad, refuse (content_length_field http session.request_)) refl

  -- A connection whose first header is refused makes `write` read the pointer to the handler, which was
  -- never set.
  pub on_read_header-uninitialised :
      (server : Server) (read : Bytes) (parsed : Parsed)
      → read_request reset read ≡ ok parsed
      → parsed.result ≡ is_false
      → on_read_header http boost world server (new_session http) read ≡ err uninitialised
  unfolding new_session write write_error
  on_read_header-uninitialised server read parsed e bad =
      on_read_header-refused server (new_session http) read parsed e bad

  -- A refused header behind an answered request is answered with the error page, and the server counts it
  -- once, under the target of the request before it, and counts nothing else.
  pub on_read_header-on_write :
      (laws : RequestLaws http) (server : Server) (before : Session http) (read : Bytes)
      (parsed : Parsed) {server' : Server} {session' : Session http}
      → read_request reset read ≡ ok parsed
      → parsed.result ≡ is_false
      → on_read_header http boost world server (on_write http before) read ≡ ok (server', session')
      → (session'.waiting ≡ for_write (print_response (show_error_page http 400 refusal)))
        × ((k : Answer)
            → served server' k
              ≡ served server k
                + occurrences k
                    ((target before.request_, result (show_error_page http 400 refusal)) ∷ []))
  unfolding on_write write_error answered
  on_read_header-on_write laws server before read parsed {server'} {session'} e bad wrote =
      let session = record (on_write http before) {
        state_ = parsed.state_;
        response_ = show_error_page http 400 refusal;
      } in
      let written = on_read_header-refused server (on_write http before) read parsed e bad in
      let (effect, last) = write-Effect http server session (sym written ∙ wrote) in
      let kept : target (set_body (clear before.request_) []) ≡ target before.request_ =
        laws.target-set_body (clear before.request_) [] ∙ laws.target-clear before.request_ in
      let told : answered http session'
          ≡ (target before.request_, result (show_error_page http 400 refusal)) ∷ [] =
        ap (answered http) last
        ∙ ap (λ (t : Bytes). (t, result (show_error_page http 400 refusal)) ∷ []) kept in
      (
        ap (λ (s : Session http). s.waiting) last,
        λ k.
            effect.counts k
            ∙ ap (λ (given : List Answer). served server k + occurrences k given) told,
      )
