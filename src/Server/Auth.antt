-- ===== src/Server/Auth.antt =====
-- src/server/auth.h: which requests need a token, and which token they bring.
pub mod Tokens
pub mod Guard
use Prim.Native.Nat.{bit_or, bit_xor}
use testhub.Base.{
  ℕ, ◌%◌, ◌^◌, ◌==◌, Bool, true, false, not, ◌&&◌, ◌||◌, Option, none, some, [], ◌∷◌, is_empty,
  drop, length, Text, codes, text_eq, insert, if◌then◌else◌,
}
use testhub.StringUtil.{to_lower, trim, starts_with}
use testhub.Json.{Floats}
use testhub.Server.{HttpRequest, HttpResponse, header, query, error}

pub record AuthConfig : Type 0 where
  pub token : Text
  pub protect_reads : Bool

abbrev pub enabled : AuthConfig → Bool
enabled c = not (is_empty c.token)

abbrev pub is_read_method : Text → Bool
is_read_method method = text_eq method (codes "GET") || text_eq method (codes "HEAD")

unfoldable pub is_protected_path : Text → Bool
is_protected_path path =
    starts_with path (codes "/api/")
    || (text_eq path (codes "/ws") || starts_with path (codes "/ws/"))

abbrev pub is_web_socket : HttpRequest → Bool
is_web_socket r = text_eq (to_lower (header r (codes "upgrade") [])) (codes "websocket")

unfoldable pub requires_auth : AuthConfig → HttpRequest → Bool
requires_auth c r =
    if not (enabled c)
    then false
    else if not (is_protected_path r.path)
    then false
    else if text_eq r.path (codes "/api/v1/health")
    then false
    else if text_eq r.method (codes "OPTIONS")
    then false
    else if (is_read_method r.method || is_web_socket r) && not c.protect_reads
    then false
    else true

unfoldable pub extract_token : HttpRequest → Text
extract_token r =
    let auth = header r (codes "authorization") [] in
    let x = header r (codes "x-auth-token") [] in
    if not (is_empty auth)
    then (if starts_with (to_lower auth) (codes "bearer ") then trim (drop 7 auth) else [])
    else if not (is_empty x)
    then trim x
    else if is_read_method r.method || is_web_socket r
    then query r (codes "access_token") []
    else []

-- The loop of `constantTimeEquals`.
unfoldable pub xor_bytes : Text → Text → ℕ → ℕ
xor_bytes [] b diff = diff
xor_bytes (x ∷ a) [] diff = diff
xor_bytes (x ∷ a) (y ∷ b) diff = xor_bytes a b (bit_or diff (bit_xor x y % 2 ^ 8))

unfoldable pub constant_time_equals : Text → Text → Bool
constant_time_equals a b = xor_bytes a b (if length a == length b then 0 else 1) == 0

module _ (f : Floats) (double_of : ℕ → ℕ) where
  abbrev pub denial : Text → HttpResponse
  denial provided =
      let r =
        error f double_of 401
          (if is_empty provided then codes "Authentication required" else codes "Invalid token")
          [] in
      record r {
        headers = insert (codes "WWW-Authenticate") (codes "Bearer realm=\"TestHub\"") r.headers;
      }

  -- The response that denies the request, if it is denied.
  unfoldable pub authorize : AuthConfig → HttpRequest → Option HttpResponse
  authorize c r =
      if not (requires_auth c r)
      then none
      else (let provided = extract_token r in
          if not (is_empty provided) && constant_time_equals provided c.token
          then none
          else some (denial provided))
