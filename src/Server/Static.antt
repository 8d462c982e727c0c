-- ===== src/Server/Static.antt =====
-- src/server/http_server.cpp: serveDirectory, serveStatic, mimeTypeFor. The file system and what
-- `std::filesystem::path` makes of a path are the parameter FileSystem.
pub mod Escape
use testhub.Base.{
  ℕ, Bool, true, false, not, ◌&&◌, ◌||◌, Option, none, some, ◌⊎◌, inl, inr, List, [], ◌∷◌, ◌++◌,
  drop, length, is_empty, Text, codes, text_eq, Map, find, insert, erase, if◌then◌else◌,
}
use testhub.StringUtil.{to_lower, starts_with, ends_with, contains}
use testhub.Json.{Floats}
use testhub.Server.{HttpRequest, HttpResponse, fresh_response, header, find_or, text, error}

pub record StaticAsset : Type 0 where
  pub content : Text
  pub content_type : Text
  pub etag : Text

-- `join_path a b` is `path(a) / path(b)`.
pub record FileSystem : Type 0 where
  pub join_path : Text → Text → Text
  pub extension : Text → Text
  pub is_directory : Text → Bool
  pub is_file : Text → Bool
  pub read_file : Text → Text

abbrev pub mime_types : Map Text
mime_types =
    (codes ".html", codes "text/html; charset=utf-8")
    ∷ (codes ".htm", codes "text/html; charset=utf-8")
    ∷ (codes ".css", codes "text/css; charset=utf-8")
    ∷ (codes ".js", codes "application/javascript; charset=utf-8")
    ∷ (codes ".mjs", codes "application/javascript; charset=utf-8")
    ∷ (codes ".json", codes "application/json; charset=utf-8")
    ∷ (codes ".svg", codes "image/svg+xml")
    ∷ (codes ".png", codes "image/png")
    ∷ (codes ".jpg", codes "image/jpeg")
    ∷ (codes ".jpeg", codes "image/jpeg")
    ∷ (codes ".gif", codes "image/gif")
    ∷ (codes ".ico", codes "image/x-icon")
    ∷ (codes ".webp", codes "image/webp")
    ∷ (codes ".woff", codes "font/woff")
    ∷ (codes ".woff2", codes "font/woff2")
    ∷ (codes ".ttf", codes "font/ttf")
    ∷ (codes ".txt", codes "text/plain; charset=utf-8")
    ∷ (codes ".md", codes "text/markdown; charset=utf-8")
    ∷ (codes ".spec", codes "text/plain; charset=utf-8")
    ∷ (codes ".cpt", codes "text/plain; charset=utf-8")
    ∷ (codes ".xml", codes "application/xml")
    ∷ (codes ".pdf", codes "application/pdf")
    ∷ (codes ".map", codes "application/json")
    ∷ []

-- `serveDirectory`: the prefix gets a slash at its end.
unfoldable pub serve_directory : List (Text × Text) → Text → Text → List (Text × Text)
serve_directory directories prefix dir =
    directories
    ++ ((if ends_with prefix (codes "/") then prefix else prefix ++ codes "/", dir) ∷ [])

-- The asset of a path, or the index page of a path that ends in a slash.
unfoldable pub find_asset : Map StaticAsset → Text → Option StaticAsset
find_asset assets path = elim (find path assets) [
  | some a ↦ some a
  | none ↦
      if is_empty path || ends_with path (codes "/")
      then find (path ++ codes "index.html") assets
      else none
]

unfoldable pub asset_response : HttpRequest → StaticAsset → HttpResponse
asset_response r a =
    if text_eq (header r (codes "if-none-match") []) a.etag
    then record fresh_response {
      status_code = 304;
      headers =
          insert (codes "ETag") a.etag (erase (codes "Content-Type") (fresh_response.headers));
    }
    else (let page = text 200 a.content a.content_type in
        record page {
          headers =
              insert (codes "Cache-Control") (codes "no-cache")
                (insert (codes "ETag") a.etag page.headers);
        })

module _ (f : Floats) (double_of : ℕ → ℕ) (fs : FileSystem) where
  abbrev pub mime_type_for : Text → Text
  mime_type_for path =
      find_or (to_lower (fs.extension path)) (codes "application/octet-stream") mime_types

  abbrev pub file_response : Text → Text → HttpResponse
  file_response full content =
      let page = text 200 content (mime_type_for full) in
      record page { headers = insert (codes "Cache-Control") (codes "no-cache") page.headers }

  -- The file that a path below a directory names.
  abbrev pub full_path : Text → Text → Text
  full_path dir rel =
      let full = fs.join_path dir rel in
      if fs.is_directory full then fs.join_path full (codes "index.html") else full

  -- The loop over the directories: nothing or a response.
  unfoldable pub serve_directories : Text → List (Text × Text) → Option HttpResponse
  serve_directories path [] = none
  serve_directories path ((prefix, dir) ∷ ds) =
      let rest = serve_directories path ds in
      let rel = drop (length prefix) path in
      let full = full_path dir rel in
      if not (starts_with path prefix) && not (text_eq (path ++ codes "/") prefix)
      then rest
      else if contains rel (codes "..")
      then some (error f double_of 403 (codes "Forbidden") [])
      else if not (fs.is_file full)
      then rest
      else some (file_response full (fs.read_file full))

  unfoldable pub serve_static :
      Map StaticAsset → List (Text × Text) → HttpRequest → Option HttpResponse
  serve_static assets directories r = elim (find_asset assets r.path) [
    | some a ↦ some (asset_response r a)
    | none ↦ serve_directories r.path directories
  ]
