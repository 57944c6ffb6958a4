-- ===== src/Handlers/Status/Html.antt =====
-- src/handlers/status_handler.cc: the text of the page.
use aite_cs.Prelude.{Bytes, joined, ◌∷◌, []}

-- The page up to the list of the handlers.
unfoldable pub status_head : Bytes
status_head = joined (
    "<!DOCTYPE html><html><link rel ='preconnect' href='https://fonts.gstatic.com'>"
    ∷ "<link href='https://fonts.googleapis.com/css2?family=Handlee&display=swap' "
    ∷ "rel='stylesheet'><style> body{ font-family: 'Handlee', cursive; font-size: 20px; "
    ∷ "display: block } .code1{ background-color: cyan } "
    ∷ ".code2{ background-color: green } .code3{ background-color: yellow } "
    ∷ ".code4{ background-color: red } .code5{ background-color: orange } "
    ∷ "td,th{ text-align: center; padding-right: 12px; border: 1px solid black } "
    ∷ "td{ max-width: 200px; word-wrap: break-word } table{ border: 1px solid black } "
    ∷ "#handlers-list { display: flex; flex-wrap: wrap } .handler{ margin-right:12px } "
    ∷ "</style><head><title>Status Page</title></head><body><h1>Status Page</h1>" ∷ [])

-- The table of the requests up to its first row.
unfoldable pub table_head : Bytes
table_head = joined (
    "<table style = \"width:100%\"><tr><th>Requested URL</th><th>Response Status "
    ∷ "Code</th><th>Number of Requests</th></tr>" ∷ [])
