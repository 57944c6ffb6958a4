-- ===== src/Tests/Sessions.antt =====
-- Headers and bodies of requests, and the theorems applied to them.
use aite_cs.Prelude.{[], none, codes, ◌≡◌, ◌↔◌, ◌⊎◌}
use aite_cs.RequestParser.Machine.{is_true, is_false}
use aite_cs.Session.{bad_request, handle_read_header}
use aite_cs.Session.Body.{IsBadLength, handle_read_header-bad_request}

handle_read_header-bad_request_example :
    (handle_read_header is_true (codes "x") none [] [] ≡ bad_request)
    ↔ ((is_true ≡ is_false) ⊎ IsBadLength (codes "x"))
handle_read_header-bad_request_example =
    handle_read_header-bad_request is_true (codes "x") none [] []
