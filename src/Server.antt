-- ===== src/Server.antt =====
-- src/server/http_server.h: the requests and responses of the HTTP server.
--
-- The text of a number that JSON prints comes from Json.Floats; `double_of` is the conversion of an
-- int to a double.
pub mod Parse
pub mod Routes
pub mod Static
pub mod Dispatch
pub mod Auth
pub mod Write
use testhub.Base.{
  ℕ, Bool, true, false, not, ◌&&◌, Option, none, some, [], ◌∷◌, ◌++◌, ◌+◌, is_empty, is_some, Text,
  codes, text_eq, Map, find, insert, erase, if◌then◌else◌,
}
use testhub.Base.Int.{negsuc}
use testhub.StringUtil.{to_lower, contains}
use testhub.Json.{Json, Floats, object, end, string, number}
use testhub.Json.Access.{set}
use testhub.Json.Print.{dump}

pub record HttpRequest : Type 0 where
  pub method : Text
  pub path : Text
  pub raw_target : Text
  pub version : Text
  pub body : Text
  pub headers : Map Text
  pub query_params : Map Text
  pub path_params : Map Text
  pub remote_address : Text

abbrev pub empty_request : HttpRequest
empty_request = record {
  method = [];
  path = [];
  raw_target = [];
  version = codes "HTTP/1.1";
  body = [];
  headers = [];
  query_params = [];
  path_params = [];
  remote_address = [];
}

abbrev pub find_or : Text → Text → Map Text → Text
find_or key default m = elim (find key m) [ none ↦ default | some v ↦ v ]

abbrev pub header : HttpRequest → Text → Text → Text
header r name default = find_or (to_lower name) default r.headers

abbrev pub query : HttpRequest → Text → Text → Text
query r name default = find_or name default r.query_params

abbrev pub param : HttpRequest → Text → Text → Text
param r name default = find_or name default r.path_params

unfoldable pub keep_alive : HttpRequest → Bool
keep_alive r =
    let c = to_lower (header r (codes "connection") []) in
    if contains c (codes "close")
    then false
    else if text_eq r.version (codes "HTTP/1.0")
    then contains c (codes "keep-alive")
    else true

pub record HttpResponse : Type 0 where
  pub status_code : ℕ
  pub body : Text
  pub headers : Map Text
  pub handled : Bool

-- The constructor of a response.
abbrev pub fresh_response : HttpResponse
fresh_response = record {
  status_code = 200;
  body = [];
  headers = insert (codes "Content-Type") (codes "application/json; charset=utf-8") [];
  handled = true;
}

abbrev pub text : ℕ → Text → Text → HttpResponse
text code body content_type = record fresh_response {
  status_code = code;
  body = body;
  headers = insert (codes "Content-Type") content_type (fresh_response.headers);
}

abbrev pub html : Text → HttpResponse
html body = text 200 body (codes "text/html; charset=utf-8")

abbrev pub no_content : HttpResponse
no_content = record fresh_response {
  status_code = 204;
  headers = erase (codes "Content-Type") (fresh_response.headers);
}

abbrev pub redirect : Text → ℕ → HttpResponse
redirect location code = record fresh_response {
  status_code = code;
  headers =
      erase (codes "Content-Type") (insert (codes "Location") location (fresh_response.headers));
}

abbrev pub hijacked : HttpResponse
hijacked = record fresh_response { handled = false }

module _ (f : Floats) (double_of : ℕ → ℕ) where
  abbrev pub json : ℕ → Json → HttpResponse
  json code value = record fresh_response { status_code = code; body = dump f value (negsuc 0) }

  unfoldable pub error : ℕ → Text → Text → HttpResponse
  error code message detail =
      let j =
        set (set (object end) (codes "error") (string message)) (codes "status")
          (number (double_of code)) in
      json code (if is_empty detail then j else set j (codes "detail") (string detail))
