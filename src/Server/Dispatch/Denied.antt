-- ===== src/Server/Dispatch/Denied.antt =====
-- With the filter that src/testhub.cpp sets, `authorize`, no handler sees a request that lacks the
-- token.
use testhub.Base.{
  ℕ, ◌<◌, ◌≡◌, ◌≢◌, refl, ap, ◌∙◌, arith, Bool, true, false, Bool-cases, none, some, Option-cases,
  ◌⊎◌, inl, inr, All, codes, text_eq,
}
use testhub.Json.{Floats}
use testhub.Server.{HttpRequest, HttpResponse}
use testhub.Server.Static.{FileSystem}
use testhub.Server.Dispatch.{
  Thrown, HttpServer, is_preflight, with_cors, without_body, denied_by, dispatch,
}
use testhub.Server.Auth.{AuthConfig, requires_auth, extract_token, authorize}
use testhub.Server.Auth.Guard.{authorize-none, authorize-some}

requires_auth-method :
    (c : AuthConfig) (r : HttpRequest)
    → requires_auth c r ≡ true
    → text_eq r.method (codes "OPTIONS") ≡ false
unfolding requires_auth
requires_auth-method c r h = ground (arith, h)

status-finished :
    (r : HttpRequest) (on : Bool) (response : HttpResponse)
    → (without_body r (with_cors on response)).status_code ≡ response.status_code
status-finished r true response = elim (Bool-cases (text_eq r.method (codes "HEAD"))) [
  | inl e ↦ rw e refl
  | inr e ↦ rw e refl
]
status-finished r false response = elim (Bool-cases (text_eq r.method (codes "HEAD"))) [
  | inl e ↦ rw e refl
  | inr e ↦ rw e refl
]

-- Where `authorize` is the filter, and the token and the credential are texts of bytes: a request that
-- needs a token and does not bring the one that is configured is answered with 401, and no handler
-- runs, so that the state of the world stays as it is.
pub dispatch-unauthorized :
    {H W : Type 0} (f : Floats) (double_of : ℕ → ℕ) (fs : FileSystem)
    (handle : H → W → HttpRequest → W × (Thrown ⊎ HttpResponse)) (c : AuthConfig) (s : HttpServer H)
    (w : W) (r : HttpRequest)
    → s.filter ≡ some (authorize f double_of c)
    → All (λ b. b < 256) c.token
    → All (λ b. b < 256) (extract_token r)
    → requires_auth c r ≡ true
    → extract_token r ≢ c.token
    → ((dispatch f double_of fs handle s w r).0 ≡ w)
      × ((dispatch f double_of fs handle s w r).1.status_code ≡ 401)
unfolding dispatch
dispatch-unauthorized f double_of fs handle c s w r filter p q needs wrong =
    let same : denied_by s r ≡ authorize f double_of c r =
      ap (λ o. elim o [ none ↦ none | some g ↦ g r ]) filter in
    let routed : is_preflight s r ≡ false = ground (arith, requires_auth-method c r needs) in
    elim (Option-cases (authorize f double_of c r)) [
      | inl e ↦ elim ((authorize-none f double_of c r p q).0 e) [
        | inl absent ↦ ground (arith, absent, needs)
        | inr right ↦ elim (wrong right) [ ]
      ]
      | inr (denied, e) ↦
          rw (routed, same ∙ e, dispatch)
            (refl, status-finished r s.enable_cors denied ∙ authorize-some f double_of c r denied e)
    ]
