-- ===== src/Server/Parse.antt =====
-- src/server/http_server.cpp: urlDecode, parseQueryString, parseRequestHead.
pub mod Decode
use testhub.Base.{
  ℕ, ◌+◌, ◌*◌, ◌==◌, Bool, true, false, not, ◌&&◌, ◌||◌, Option, none, some, ◌⊎◌, inl, inr, List,
  [], ◌∷◌, ◌++◌, drop, is_empty, Text, codes, cut, text_eq, Map, find, insert, if◌then◌else◌,
}
use testhub.StringUtil.{to_lower, trim, starts_with, find_text}
use testhub.Cron.{split_ws}
use testhub.Json.Parse.{hex_value}
use testhub.Server.{HttpRequest}

-- The byte that three characters stand for, if they are an escape.
unfoldable pub escaped : ℕ → ℕ → ℕ → Option ℕ
escaped c d e =
    if c == b'%'
    then (elim (hex_value d) [
      | none ↦ none
      | some h ↦ elim (hex_value e) [ none ↦ none | some l ↦ some (h * 16 + l) ]
    ])
    else none

abbrev pub unplus : ℕ → ℕ
unplus c = if c == b'+' then 32 else c

unfoldable pub url_decode : Text → Text
url_decode [] = []
url_decode (c ∷ []) = unplus c ∷ []
url_decode (c ∷ d ∷ []) = unplus c ∷ unplus d ∷ []
url_decode (c ∷ d ∷ e ∷ s) = elim (escaped c d e) [
  | some v ↦ v ∷ url_decode s
  | none ↦ unplus c ∷ url_decode (d ∷ e ∷ s)
]

-- The parts of a text between the `c`, one more than there are.
unfoldable pub parts : ℕ → Text → List Text
parts c [] = [] ∷ []
parts c (d ∷ s) =
    let rest = parts c s in
    if d == c then [] ∷ rest else elim rest [ [] ↦ (d ∷ []) ∷ [] | p ∷ ps ↦ (d ∷ p) ∷ ps ]

unfoldable pub add_pair : Text → Map Text → Map Text
add_pair pair params =
    if is_empty pair
    then params
    else let (key, value) = cut b'=' pair in
      insert (url_decode key) (elim value [ none ↦ [] | some v ↦ url_decode v ]) params

unfoldable pub add_pairs : List Text → Map Text → Map Text
add_pairs [] params = params
add_pairs (p ∷ ps) params = add_pairs ps (add_pair p params)

abbrev pub parse_query_string : Text → Map Text
parse_query_string qs = add_pairs (parts b'&' qs) []

-- What repeated `std::getline` reads: a last line that is empty is none.
unfoldable pub lines : Text → List Text
lines [] = []
lines (c ∷ s) =
    let rest = lines s in
    if c == 10 then [] ∷ rest else elim rest [ [] ↦ (c ∷ []) ∷ [] | l ∷ ls ↦ (c ∷ l) ∷ ls ]

-- `line.pop_back()` if the line ends in a carriage return.
unfoldable pub strip_cr : Text → Text
strip_cr [] = []
strip_cr (c ∷ []) = if c == 13 then [] else c ∷ []
strip_cr (c ∷ d ∷ s) = c ∷ strip_cr (d ∷ s)

unfoldable pub add_header : Text → Text → Map Text → Map Text
add_header key value headers = elim (find key headers) [
  | none ↦ insert key value headers
  | some old ↦
      if text_eq key (codes "content-length")
      then insert key value headers
      else insert key (old ++ (codes ", " ++ value)) headers
]

unfoldable pub read_headers : List Text → Map Text → Text ⊎ Map Text
read_headers [] headers = inr headers
read_headers (l ∷ ls) headers =
    let line = strip_cr l in
    elim (is_empty line) [
      | true ↦ inr headers
      | false ↦ elim (cut b':' line).1 [
        | none ↦ inl (codes "Malformed header line")
        | some value ↦
            read_headers ls (add_header (to_lower (trim (cut b':' line).0)) (trim value) headers)
      ]
    ]

-- The path of a target that is a whole address.
unfoldable pub path_behind_host : Text → Text
path_behind_host path = elim (find_text path (codes "//")) [
  | none ↦ codes "/"
  | some i ↦ elim (cut b'/' (drop (i + 2) path)).1 [ none ↦ codes "/" | some s ↦ b'/' ∷ s ]
]

unfoldable pub fix_path : Text → Text ⊎ Text
fix_path path =
    if starts_with path (codes "/")
    then inr path
    else if starts_with path (codes "http://") || starts_with path (codes "https://")
    then inr (path_behind_host path)
    else if text_eq path (codes "*")
    then inr path
    else inl (codes "Invalid request target")

unfoldable pub with_target : HttpRequest → Text → Text → Text → List Text → Text ⊎ HttpRequest
with_target request method target version rest =
    if not (text_eq version (codes "HTTP/1.1")) && not (text_eq version (codes "HTTP/1.0"))
    then inl (codes "Unsupported HTTP version")
    else let (before, behind) = cut b'?' target in
      elim (fix_path (url_decode before)) [
        | inl error ↦ inl error
        | inr path ↦ elim (read_headers rest request.headers) [
          | inl error ↦ inl error
          | inr headers ↦ inr (record request {
            method = method;
            path = path;
            raw_target = target;
            version = version;
            headers = headers;
            query_params = elim behind [
              | none ↦ request.query_params
              | some qs ↦ parse_query_string qs
            ];
          })
        ]
      ]

-- The parts of the first line that `>>` reads.
unfoldable pub with_words : HttpRequest → List Text → List Text → Text ⊎ HttpRequest
with_words request [] rest = inl (codes "Malformed request line")
with_words request (method ∷ []) rest = inl (codes "Malformed request line")
with_words request (method ∷ target ∷ []) rest =
    with_target request method target request.version rest
with_words request (method ∷ target ∷ version ∷ _) rest =
    with_target request method target version rest

unfoldable pub parse_request_head : Text → HttpRequest → Text ⊎ HttpRequest
parse_request_head head request = elim (lines head) [
  | [] ↦ inl (codes "Empty request")
  | l ∷ ls ↦ with_words request (split_ws (strip_cr l) []) ls
]
