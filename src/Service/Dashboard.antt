-- ===== src/Service/Dashboard.antt =====
-- src/server/dashboard_service_impl.cpp: the files of the web page. The directory is a parameter:
-- `read_file` yields the contents of a file that can be read.
use configraft.Base.{Bool, ◌||◌, Option, none, some, [], ◌∷◌, ◌++◌, if◌then◌else◌, ◌==◌}
use configraft.Base.Bytes.{Bytes, codes, bytes_eq, starts_with}
use configraft.Service.{HttpMethod, method_get, HttpResponse}

-- `path.find_last_of('.')` and `path.substr(dot + 1)`: what follows the last dot.
unfoldable pub extension : Bytes → Option Bytes
extension [] = none
extension (c ∷ s) = elim (extension s) [
  | some ext ↦ some ext
  | none ↦ if c == b'.' then some s else none
]

unfoldable pub extension_type : Bytes → Bytes
extension_type ext =
    if bytes_eq ext (codes "html") || bytes_eq ext []
    then codes "text/html; charset=utf-8"
    else if bytes_eq ext (codes "css")
    then codes "text/css; charset=utf-8"
    else if bytes_eq ext (codes "js")
    then codes "application/javascript; charset=utf-8"
    else if bytes_eq ext (codes "json")
    then codes "application/json"
    else if bytes_eq ext (codes "svg")
    then codes "image/svg+xml"
    else if bytes_eq ext (codes "png")
    then codes "image/png"
    else if bytes_eq ext (codes "ico")
    then codes "image/x-icon"
    else codes "application/octet-stream"

unfoldable pub content_type : Bytes → Bytes
unfolding extension extension_type
content_type path = elim (extension path) [
  | none ↦ extension_type []
  | some ext ↦ extension_type ext
]

-- `path.find(p) != npos`
unfoldable pub contains : Bytes → Bytes → Bool
contains p [] = starts_with p []
contains p (c ∷ s) = let rest = contains p s in starts_with p (c ∷ s) || rest

unfoldable pub requested : Bytes → Bytes
requested [] = codes "index.html"
requested (c ∷ path) = c ∷ path

-- An absolute path, or one that climbs.
unfoldable pub is_refused : Bytes → Bool
unfolding contains
is_refused path = starts_with (codes "/") path || contains (codes "..") path

unfoldable pub not_found : HttpResponse → HttpResponse
not_found response = record response { status_code = some 404 }

unfoldable pub deliver : Option Bytes → Bytes → HttpResponse → HttpResponse
unfolding not_found content_type
deliver none path response = not_found response
deliver (some contents) path response = record response {
  content_type = some (content_type path);
  attachment = response.attachment ++ contents;
}

unfoldable pub serve : (Bytes → Option Bytes) → Bytes → Bytes → HttpResponse → HttpResponse
unfolding deliver
serve read_file web_dir path response = deliver (read_file (web_dir ++ (b'/' ∷ path))) path response

unfoldable pub dashboard_get : (Bytes → Option Bytes) → Bytes → Bytes → HttpResponse → HttpResponse
unfolding serve requested is_refused not_found
dashboard_get read_file web_dir path response =
    if is_refused (requested path)
    then not_found response
    else serve read_file web_dir (requested path) response

unfoldable pub dashboard :
    (Bytes → Option Bytes) → Bytes → HttpMethod → Bytes → HttpResponse → HttpResponse
unfolding dashboard_get not_found
dashboard read_file web_dir method_get path response = dashboard_get read_file web_dir path response
dashboard read_file web_dir _ path response = not_found response
