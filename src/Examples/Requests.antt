-- ===== src/Examples/Requests.antt =====
-- The server and Base64 on fixed inputs.
use testhub.Base.{
  if◌then◌else◌, find, insert, inl, cut, text_lt, to_string, All, ℕ, ◌+◌, ◌<◌, ◌≡◌, ◌↔◌, ◌⊎◌, refl,
  arith, true, false, not, ◌&&◌, any, none, some, inr, List, [], ◌∷◌, ◌++◌, is_some, Text, codes,
  text_eq,
}
use testhub.Json.Parse.{hex_value}
use testhub.StringUtil.{
  to_lower, to_upper, upper_byte, lower_byte, trim_start, trim_end, is_space, starts_with,
  ends_with, find_text, contains,
}
use testhub.Base64.{encode, decode}
use testhub.Base64.RoundTrip.{decode-encode}
use testhub.Server.{HttpRequest, HttpResponse, empty_request, fresh_response}
use testhub.Server.Parse.{
  url_decode, parse_request_head, lines, strip_cr, with_words, with_target, fix_path, escaped,
  read_headers, add_header, add_pairs, add_pair, parts,
}
use testhub.Cron.{split_ws}
use testhub.Server.Parse.Decode.{nothing, itself, plus, percent, url_decode-Encodes}
use testhub.Server.Routes.{
  Route, consider_all, consider, match_path, match_segments, param_name, strip_star,
  split_path_from, add_route, split_path, match_route,
}
use testhub.Server.Routes.Best.{Best, other_method, match_route-Best}
use testhub.Server.Static.{FileSystem, find_asset, file_response, serve_static}
use testhub.Server.Static.Escape.{serve_static-absolute}
use testhub.Server.Dispatch.{Thrown, HttpServer, run_route, route_of, dispatch}
use testhub.Server.Dispatch.Denied.{dispatch-unauthorized}
use testhub.Server.Write.{serialize, phrase_in, header_lines}
use testhub.Server.Auth.{AuthConfig, is_protected_path, requires_auth, extract_token, authorize}
use testhub.Server.Auth.Guard.{authorize-none, authorize-slashes}
use testhub.Examples.Documents.{digits}

encode_example : decode (encode (codes "any")) ≡ codes "any"
encode_example = decode-encode (codes "any") (omega arith, (omega arith, (omega arith, tt)))

url_example : url_decode (codes "%41+b") ≡ codes "A b"
unfolding hex_value
url_example =
    url_decode-Encodes (percent b'4' b'1' 4 1 refl refl (plus (itself b'b' refl refl nothing)))

abbrev guarded : AuthConfig
guarded = record { token = codes "k"; protect_reads = false }

abbrev post : Text → HttpRequest
post token = record empty_request {
  method = codes "POST";
  path = codes "/api/v1/tests";
  headers = (codes "x-auth-token", token) ∷ [];
}

abbrev same : ℕ → ℕ
same n = n

token_bytes : All (λ b. b < 256) (extract_token (post (codes "k")))
unfolding extract_token find to_lower lower_byte trim_start trim_end is_space text_eq
token_bytes = (omega arith, tt)

post_token : extract_token (post (codes "k")) ≡ codes "k"
unfolding extract_token find to_lower lower_byte trim_start trim_end is_space text_eq
post_token = refl

key_needed : requires_auth guarded (post (codes "k")) ≡ true
unfolding requires_auth is_protected_path starts_with find to_lower lower_byte text_eq
key_needed = refl

guard_example : (authorize digits same guarded (post (codes "k")) ≡ none) ↔ (
    (requires_auth guarded (post (codes "k")) ≡ false)
    ⊎ (extract_token (post (codes "k")) ≡ codes "k"))
guard_example = authorize-none digits same guarded (post (codes "k")) (omega arith, tt) token_bytes

abbrev two_routes : List (Route ℕ)
two_routes =
    add_route (add_route [] (codes "post") (codes "/api/v1/{name}") 1) (codes "POST")
      (codes "/api/v1/tests") 2

best_example :
    Best
      (codes "POST")
      (split_path (codes "/api/v1/tests"))
      two_routes
      ((match_route two_routes (codes "POST") (codes "/api/v1/tests")).best)
    × ((match_route two_routes (codes "POST") (codes "/api/v1/tests")).mismatch ≡ (
        not (is_some (match_route two_routes (codes "POST") (codes "/api/v1/tests")).best)
        && any (other_method (codes "POST") (split_path (codes "/api/v1/tests"))) two_routes))
best_example = match_route-Best two_routes (codes "POST") (codes "/api/v1/tests")

slashes_example :
    (authorize digits same guarded (record (post []) { path = codes "//api/v1/tests" }) ≡ none)
    × (match_route two_routes (codes "POST") (codes "//api/v1/tests")
        ≡ match_route two_routes (codes "POST") (codes "/api/v1/tests"))
slashes_example = authorize-slashes digits same guarded (post []) (codes "api/v1/tests") two_routes

-- A handler counts its runs.
abbrev counting : ℕ → ℕ → HttpRequest → ℕ × (Thrown ⊎ HttpResponse)
counting h w r = (w + h, inr fresh_response)

abbrev locked : AuthConfig
locked = record guarded { token = codes "secret" }

abbrev one_file : FileSystem
one_file = record {
  join_path = λ a b. if starts_with b (codes "/") then b else a ++ b;
  extension = λ p. [];
  is_directory = λ p. false;
  is_file = λ p. text_eq p (codes "/etc/hosts");
  read_file = λ p. codes "local";
}

abbrev server : HttpServer ℕ
server = record {
  routes = two_routes;
  assets = [];
  directories = [];
  fallback = none;
  filter = some (authorize digits same locked);
  enable_cors = true;
}

secret_needed : requires_auth locked (post (codes "k")) ≡ true
unfolding requires_auth is_protected_path starts_with find to_lower lower_byte text_eq
secret_needed = refl

unauthorized_example :
    ((dispatch digits same one_file counting server 7 (post (codes "k"))).0 ≡ 7)
    × ((dispatch digits same one_file counting server 7 (post (codes "k"))).1.status_code ≡ 401)
unauthorized_example =
    dispatch-unauthorized digits same one_file counting locked server 7 (post (codes "k")) refl
      (omega arith, (omega arith, (omega arith, (omega arith, (omega arith, (omega arith, tt))))))
      token_bytes secret_needed (λ e. ground (arith, post_token, e))

abbrev hosts : HttpRequest
hosts = record empty_request { method = codes "GET"; path = codes "//etc/hosts" }

hosts_joined : (t : Text) → one_file.join_path (codes "web") (b'/' ∷ t) ≡ b'/' ∷ t
unfolding starts_with
hosts_joined t = refl

hosts_page : find_asset [] hosts.path ≡ none
unfolding find_asset find ends_with text_eq
hosts_page = refl

hosts_dots : contains (codes "/etc/hosts") (codes "..") ≡ false
unfolding find_text starts_with
hosts_dots = refl

hosts_file : one_file.is_file (codes "/etc/hosts") ≡ true
unfolding text_eq
hosts_file = refl

absolute_example :
    serve_static digits same one_file [] ((codes "/", codes "web") ∷ []) hosts
    ≡ some (file_response digits same one_file (codes "/etc/hosts") (codes "local"))
absolute_example =
    serve_static-absolute digits same one_file [] (codes "/") (codes "web") (codes "etc/hosts")
      hosts hosts_joined refl hosts_page hosts_dots refl hosts_file

-- Without a token, a path with two slashes reaches the second handler.
slashes_run :
    (dispatch digits same one_file counting server 7
      (record (post []) { path = codes "//api/v1/tests" })).0
    ≡ 9
unfolding dispatch authorize requires_auth is_protected_path run_route route_of match_route
    consider_all consider match_path match_segments param_name add_route strip_star split_path_from
    to_upper upper_byte starts_with ends_with find text_eq insert
slashes_run = refl

gone_written :
    serialize (codes "now") (record fresh_response { status_code = 404; body = codes "{}" }) false
    ≡ codes
        "HTTP/1.1 404 Not Found\r\nContent-Type: application/json; charset=utf-8\r\nDate: now\r\nServer: TestHub\r\nContent-Length: 2\r\nConnection: close\r\n\r\n{}"
unfolding serialize phrase_in header_lines to_lower lower_byte text_eq to_string insert
gone_written = refl

-- The headers of one name are joined, and the query is decoded.
head_parsed :
    parse_request_head (codes "GET /a%20b?q=1&r HTTP/1.1\r\nX-A: 1\r\nx-a: 2\r\n") empty_request
    ≡ inr (record empty_request {
      method = codes "GET";
      path = codes "/a b";
      raw_target = codes "/a%20b?q=1&r";
      headers = (codes "x-a", codes "1, 2") ∷ [];
      query_params = (codes "q", codes "1") ∷ (codes "r", []) ∷ [];
    })
unfolding parse_request_head lines strip_cr split_ws with_words with_target fix_path cut url_decode
    escaped hex_value read_headers add_header add_pairs add_pair parts is_space to_lower lower_byte
    trim_start trim_end starts_with find insert text_eq text_lt
head_parsed = refl

target_refused :
    parse_request_head (codes "GET a HTTP/1.1\r\n") empty_request
    ≡ inl (codes "Invalid request target")
unfolding parse_request_head lines strip_cr split_ws with_words with_target fix_path cut url_decode
    is_space starts_with text_eq
target_refused = refl
