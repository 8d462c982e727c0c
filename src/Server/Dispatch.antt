-- ===== src/Server/Dispatch.antt =====
-- src/server/http_server.cpp: dispatch. A handler is run on the state of the world, and ends with a
-- response or an exception.
pub mod Denied
use testhub.Base.{
  ℕ, Bool, true, false, not, ◌&&◌, ◌||◌, Option, none, some, ◌⊎◌, inl, inr, List, [], ◌∷◌, ◌++◌,
  Text, codes, text_eq, Map, insert, if◌then◌else◌,
}
use testhub.Json.{Floats}
use testhub.Server.{HttpRequest, HttpResponse, header, no_content, error}
use testhub.Server.Routes.{Route, Found, Search, match_route}
use testhub.Server.Static.{StaticAsset, FileSystem, serve_static}

pub data Thrown : Type 0 where
  invalid_argument : Text → Thrown
  parse_error : Text → Thrown
  exception : Text → Thrown

-- What `dispatch` reads of the server; `H` are the handlers.
pub record HttpServer (H : Type 0) : Type 0 where
  pub routes : List (Route H)
  pub assets : Map StaticAsset
  pub directories : List (Text × Text)
  pub fallback : Option H
  -- The response that denies a request, if the filter denies it.
  pub filter : Option (HttpRequest → Option HttpResponse)
  pub enable_cors : Bool

module _ (f : Floats) (double_of : ℕ → ℕ) where
  unfoldable pub caught : Thrown → HttpResponse
  caught (invalid_argument message) = error f double_of 400 message []
  caught (parse_error message) = error f double_of 400 (codes "Invalid JSON") message
  caught (exception message) = error f double_of 500 (codes "Internal Server Error") message

unfoldable pub preflight : HttpRequest → HttpResponse
preflight r = record no_content {
  headers = insert (codes "Access-Control-Max-Age") (codes "600") (
      insert (codes "Access-Control-Allow-Headers")
        (header r (codes "access-control-request-headers") (codes "Content-Type, Authorization"))
        (insert (codes "Access-Control-Allow-Methods")
          (codes "GET, POST, PUT, PATCH, DELETE, OPTIONS") (no_content.headers)));
}

abbrev pub with_cors : Bool → HttpResponse → HttpResponse
with_cors on response =
    if on
    then record response {
      headers = insert (codes "Access-Control-Allow-Origin") (codes "*") response.headers;
    }
    else response

abbrev pub without_body : HttpRequest → HttpResponse → HttpResponse
without_body r response =
    if text_eq r.method (codes "HEAD") then record response { body = [] } else response

abbrev pub denied_by : {H : Type 0} → HttpServer H → HttpRequest → Option HttpResponse
denied_by s r = elim s.filter [ none ↦ none | some filter ↦ filter r ]

abbrev pub is_preflight : {H : Type 0} → HttpServer H → HttpRequest → Bool
is_preflight s r = s.enable_cors && text_eq r.method (codes "OPTIONS")

-- The route of a request; HEAD falls back on the handler of GET.
unfoldable pub route_of : {H : Type 0} → HttpServer H → HttpRequest → Search H
route_of s r =
    let own = match_route s.routes r.method r.path in
    elim own.best [
      | some b ↦ own
      | none ↦
          if text_eq r.method (codes "HEAD") then match_route s.routes (codes "GET") r.path else own
    ]

module _ {H W : Type 0} (f : Floats) (double_of : ℕ → ℕ) (fs : FileSystem)
    (handle : H → W → HttpRequest → W × (Thrown ⊎ HttpResponse)) where
  -- Neither a route nor a static page answers.
  unfoldable pub run_fallback : HttpServer H → W → HttpRequest → W × (Thrown ⊎ HttpResponse)
  run_fallback s w r = elim s.fallback [
    | some h ↦ handle h w r
    | none ↦ (w, inr (error f double_of 404 (codes "Not Found") (r.method ++ (32 ∷ r.path))))
  ]

  unfoldable pub run_static : HttpServer H → W → HttpRequest → W × (Thrown ⊎ HttpResponse)
  run_static s w r =
      if text_eq r.method (codes "GET") || text_eq r.method (codes "HEAD")
      then (elim (serve_static f double_of fs s.assets s.directories r) [
        | none ↦ run_fallback s w r
        | some response ↦ (w, inr response)
      ])
      else run_fallback s w r

  unfoldable pub run_route : HttpServer H → W → HttpRequest → W × (Thrown ⊎ HttpResponse)
  run_route s w r =
      let m = route_of s r in
      elim m.best [
        | some b ↦ handle (b.route.handler) w (record r { path_params = b.params })
        | none ↦
            if m.mismatch
            then (w, inr (error f double_of 405 (codes "Method Not Allowed") []))
            else run_static s w r
      ]

  abbrev settle : W × (Thrown ⊎ HttpResponse) → W × HttpResponse
  settle (w, inl thrown) = (w, caught f double_of thrown)
  settle (w, inr response) = (w, response)

  abbrev finish : HttpServer H → HttpRequest → W × HttpResponse → W × HttpResponse
  finish s r (w, response) =
      (w, without_body r (with_cors (s.enable_cors && response.handled) response))

  unfoldable pub dispatch : HttpServer H → W → HttpRequest → W × HttpResponse
  dispatch s w r = if is_preflight s r then finish s r (w, preflight r) else (elim (denied_by s r) [
    | some denied ↦ (w, without_body r (with_cors s.enable_cors denied))
    | none ↦ finish s r (settle (run_route s w r))
  ])
