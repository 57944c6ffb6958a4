-- ===== src/Handlers/Status.antt =====
-- src/handlers/status_handler.cc: the page with the handlers and the requests that were served.
pub mod Html
pub mod Totals
use aite_cs.Prelude.{
  ℕ, zero, suc, ◌+◌, List, [], ◌∷◌, ◌++◌, Option, none, some, Bytes, codes, ltb, if◌then◌else◌,
  Result, ok, err, ◌>>=◌, overflow,
}
use aite_cs.Handlers.Status.Html.{status_head, table_head}
use aite_cs.Http.{Http}
use aite_cs.Server.State.{Server}
use aite_cs.Standard.Decimal.{decimal, leading_digit}
use aite_cs.Standard.Ints.{int_max}
use aite_cs.Standard.Map.{Map}
use aite_cs.Utils.ErrorPage.{page, show_error_page}

unfoldable pub prefix_items : List Bytes → Bytes
prefix_items [] = []
prefix_items (prefix ∷ prefixes) = codes "<li>" ++ prefix ++ codes "</li>" ++ prefix_items prefixes

unfoldable pub handler_items : Map Bytes (List Bytes) → Bytes
handler_items [] = []
handler_items ((type, prefixes) ∷ handlers) =
    codes "<div class=handler><b>"
    ++ type
    ++ codes " Handler(s)</b><ol>"
    ++ prefix_items prefixes
    ++ codes "</ol></div>"
    ++ handler_items handlers

unfoldable pub handlers_list : Map Bytes (List Bytes) → Bytes
handlers_list [] = []
handlers_list (handler ∷ handlers) =
    codes "<div id='handlers-list'>" ++ handler_items (handler ∷ handlers) ++ codes "</div>"

-- The class of a row. The status 0 has the logarithm minus infinity, and what follows fits no `int`.
unfoldable pub status_class : ℕ → Result ℕ
status_class zero = err overflow
status_class (suc n) = ok (leading_digit (suc n) (suc n))

-- `num_req += n`, in `int`.
unfoldable pub add_count : ℕ → ℕ → Result ℕ
add_count total n = if ltb int_max (total + n) then err overflow else ok (total + n)

-- The loop over the requests: its rows, and the total behind `total`.
pub record Rows : Type 0 where
  pub html : Bytes
  pub total : ℕ

module _ (http : Http) where
  open http use {Request, Response, reason}

  unfoldable pub row : Bytes × ℕ → ℕ → ℕ → Bytes
  row (uri, status) class n =
      codes "<tr><td>"
      ++ uri
      ++ codes "</td><td class=code"
      ++ decimal class
      ++ codes ">"
      ++ decimal status
      ++ codes " "
      ++ reason status
      ++ codes "</td><td>"
      ++ decimal n
      ++ codes "</td></tr>"

  unfoldable pub add_rows : Map (Bytes × ℕ) ℕ → ℕ → Result Rows
  add_rows [] total = ok (record { html = []; total = total })
  add_rows ((k, n) ∷ requests) total = do
    class ← status_class k.1
    total' ← add_count total n
    later ← add_rows requests total'
    ok (record later { html = row k class n ++ later.html })

  -- The table, which is left out where no request was logged, and the total.
  unfoldable pub request_table : Map (Bytes × ℕ) ℕ → Result Rows
  request_table [] = ok (record { html = []; total = 0 })
  request_table (request ∷ requests) = do
    rows ← add_rows (request ∷ requests) 0
    ok (record rows { html = table_head ++ rows.html ++ codes "</table>" })

  unfoldable pub status_body : Server → Rows → Bytes
  status_body server rows =
      status_head
      ++ handlers_list server.handler_to_prefixes_
      ++ codes "<b>Total Number of Requests Served : </b>"
      ++ decimal rows.total
      ++ codes "<br><br>"
      ++ rows.html
      ++ codes "</body></html>"

  -- `parent` is `none` before `initStatus`.
  unfoldable pub handle_status : Option Server → Request → Result Response
  handle_status none req =
      ok (show_error_page http 500 (codes "Status Handler was not correctly initialized"))
  handle_status (some server) req = do
    rows ← request_table server.requests_
    ok (page http 200 (codes "text/html") (status_body server rows))
