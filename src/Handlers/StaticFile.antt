-- ===== src/Handlers/StaticFile.antt =====
-- src/handlers/static_file_handler.cc: the content type and the path of the file that is asked for.
use aite_cs.Prelude.{Result, ok, ◌>>=◌, or_uncaught, ◌++◌, Bytes, codes, equal, if◌then◌else◌}
use aite_cs.Utils.FilePath.{BoostPath}

-- The type for an extension.
unfoldable pub content_type : Bytes → Bytes
content_type file_extension =
    if equal file_extension (codes ".txt")
    then codes "text/plain"
    else if equal file_extension (codes ".html")
    then codes "text/html"
    else if equal file_extension (codes ".jpeg")
    then codes "image/jpeg"
    else if equal file_extension (codes ".png")
    then codes "image/png"
    else if equal file_extension (codes ".zip")
    then codes "application/zip"
    else if equal file_extension (codes ".css")
    then codes "text/css"
    else if equal file_extension (codes ".js")
    then codes "text/javascript"
    else codes "text/plain"

module _ (boost : BoostPath) where
  unfoldable pub parse_content_type_from_uri : Bytes → Bytes
  parse_content_type_from_uri uri = content_type (boost.extension uri)

  unfoldable pub parse_path_from_uri : Bytes → Bytes → Bytes → Result Bytes
  parse_path_from_uri root location uri =
      or_uncaught (boost.relative uri location) >>= λ path. ok (root ++ path)
