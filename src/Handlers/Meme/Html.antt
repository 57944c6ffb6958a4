-- ===== src/Handlers/Meme/Html.antt =====
-- src/handlers/meme_handler.cc: the text of the pages.
use aite_cs.Prelude.{Bytes, codes, joined, ◌∷◌, []}

-- The page of a new meme, up to the caption on top.
unfoldable pub generated_head : Bytes
generated_head = joined (
    "<!DOCTYPE html><html><head><link rel='preconnect' "
    ∷ "href='https://fonts.gstatic.com'><link href='https://fonts.googleapis.com/"
    ∷ "css2?family=Odibee+Sans&family=Oswald:wght@700&family=Sigmar+One&"
    ∷ "display=swap' rel='stylesheet'></head>"
    ∷ "<body style=\"background-color:lightblue; font-family: 'Sigmar One', "
    ∷ "cursive;color: navy\"><div "
    ∷ "class='page-layout'><div class=column></div><div class='page-content "
    ∷ "column'><h1>Generated Meme</h1><div class=template><div class='top-text captions'>" ∷ [])

-- Between the captions.
unfoldable pub generated_middle : Bytes
generated_middle = codes "</div><div class='bottom-text captions'>"

-- From the caption at the bottom to the image.
unfoldable pub generated_form : Bytes
generated_form = joined (
    "</div></div><form method='post' action='/meme/browse'><button style='position: "
    ∷ "absolute; left: 0'>Browse Memes</button></form><form method='post' "
    ∷ "action='/meme/create'><button style='position: absolute; right: 0'>Create a new "
    ∷ "Meme</button></form></div><div class=column></div></div></body><style>"
    ∷ "button{width: 30px; border-radius: 5px;background-color: navy;color: "
    ∷ "white;font-family: 'Sigmar One', cursive;width:50%;font-size: 1vw;}"
    ∷ ".template{background-color: white; margin: auto; width: 40vw;height: "
    ∷ "40vw;word-break: normal;margin:1vw;font-family: "
    ∷ "'Oswald', sans-serif;text-transform: uppercase;background-image:url(" ∷ [])

-- From the image to what depends on the style.
unfoldable pub generated_style : Bytes
generated_style = joined (
    ");background-position: center; background-size:cover; color: white;font-size: "
    ∷ "2vw;-webkit-text-stroke: 1px black;position: relative;align-content: center;}"
    ∷ ".top-text{font-size: 130%;padding: 2% 0% 2% 0%; font-weight: "
    ∷ "bold; width: 100%;position: absolute;top:0;text-align: center;}"
    ∷ ".bottom-text{font-size: 130%;padding: 2% 0% 2% "
    ∷ "0%;font-weight:bold;width:100%;position: absolute;bottom: "
    ∷ "0;text-align: center;}.page-layout{width: 100%;height: 100%;display: "
    ∷ "grid;grid-template-rows:100%;grid-template-columns: 15% 70% 15%; position: "
    ∷ "relative;}.page-content{padding-left:5%;padding-right:5%;text-align: "
    ∷ "center;font-size: 1.5vw;}.column {display: "
    ∷ "grid;justify-content:center;align-content:center;text-align:center;" ∷ "position: relative}"
    ∷ [])

-- The page with all memes, up to the first of them.
unfoldable pub browse_head : Bytes
browse_head = joined (
    "<!DOCTYPE html><html><head><link rel='preconnect' "
    ∷ "href='https://fonts.gstatic.com'><link href='https://fonts.googleapis.com/"
    ∷ "css2?family=Odibee+Sans&family=Oswald:wght@700&family=Sigmar+One&"
    ∷ "display=swap' rel='stylesheet'></head><style>"
    ∷ ".template{background-color: white; margin: auto; width: 300px;height: "
    ∷ "300px;word-break: normal;margin:14px;font-family: "
    ∷ "'Oswald', sans-serif;text-transform: uppercase;"
    ∷ "background-position: center; background-size:cover; color: white;font-size: "
    ∷ "20px;-webkit-text-stroke: 1px black;position: relative;align-content: center;}"
    ∷ ".top-text{font-size: 20px;padding: 2% 0% 2% 0%; font-weight: "
    ∷ "bold; width: 100%;position: absolute;top:0;text-align: center;}"
    ∷ ".bottom-text{font-size: 20px;padding: 2% 0% 2% "
    ∷ "0%;font-weight:bold;width:100%;position: absolute;bottom: "
    ∷ "0;text-align: center;}button{padding-left: 2% width: 30px; border-radius: "
    ∷ "5px;background-color: navy;color: "
    ∷ "white;font-family: 'Sigmar One', cursive;width:50%;font-size: 1vw;}</style>"
    ∷ "<body style=\"background-color:lightblue; font-family: 'Sigmar One', "
    ∷ "cursive;color: navy\"><h1 style='padding-left: 2%'>Browse "
    ∷ "Memes</h1><form method='post' action='/meme/create'><button style='position: "
    ∷ "absolute; left: 0'>Create a new Meme</button></form><br><br>"
    ∷ "<div style='display:flex; flex-wrap: wrap'>" ∷ [])
