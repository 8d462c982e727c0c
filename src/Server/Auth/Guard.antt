-- ===== src/Server/Auth/Guard.antt =====
-- Which requests `authorize` lets through.
use testhub.Base.{
  ℕ, ◌<◌, ◌≡◌, refl, sym, ap, ◌↔◌, ◌⊎◌, inl, inr, arith, Bool, true, false, not, ◌&&◌, Bool-cases,
  none, some, List, ◌∷◌, All, is_empty, Text, text_eq, text_eq_iff, if◌then◌else◌,
}
use testhub.StringUtil.{starts_with}
use testhub.Json.{Floats}
use testhub.Server.{HttpRequest, HttpResponse, error}
use testhub.Server.Routes.{Route, split_path_from, match_route}
use testhub.Server.Auth.{
  AuthConfig, is_protected_path, requires_auth, extract_token, constant_time_equals, authorize,
}
use testhub.Server.Auth.Tokens.{constant_time_equals-text_eq}

requires_auth-enabled :
    (c : AuthConfig) (r : HttpRequest) → requires_auth c r ≡ true → is_empty c.token ≡ false
unfolding requires_auth
requires_auth-enabled c r h = ground (arith, h)

-- The two cases of the choice that `authorize` makes.
choice-none :
    {A : Type 0} (b d : Bool) (x : A)
    → (if not b then none else if d then none else some x) ≡ none
    → (b ≡ false) ⊎ (d ≡ true)
choice-none true true x h = inr refl
choice-none true false x h = ground (arith, h)
choice-none false d x h = inl refl

choice_passes :
    {A : Type 0} (b d : Bool) (x : A)
    → (b ≡ false) ⊎ (d ≡ true)
    → (if not b then none else if d then none else some x) ≡ none
choice_passes true true x h = refl
choice_passes true false x (inl h) = ground (arith, h)
choice_passes true false x (inr h) = ground (arith, h)
choice_passes false d x h = refl

choice-status :
    (b d : Bool) (x y : HttpResponse)
    → (if not b then none else if d then none else some x) ≡ some y
    → x.status_code ≡ y.status_code
choice-status true true x y h = ground (arith, h)
choice-status true false x y h = ap (λ o. elim o [ none ↦ 0 | some r ↦ r.status_code ]) h
choice-status false d x y h = ground (arith, h)

-- A request that is refused is answered with 401.
pub authorize-some :
    (f : Floats) (double_of : ℕ → ℕ) (c : AuthConfig) (r : HttpRequest) (denied : HttpResponse)
    → authorize f double_of c r ≡ some denied
    → denied.status_code ≡ 401
unfolding authorize error
authorize-some f double_of c r denied h = sym (choice-status (requires_auth c r) _ _ denied h)

-- Where the token and the credential that a request brings are texts of bytes, the request passes if
-- and only if it needs no token or brings the one that is configured.
pub authorize-none :
    (f : Floats) (double_of : ℕ → ℕ) (c : AuthConfig) (r : HttpRequest)
    → All (λ b. b < 256) c.token
    → All (λ b. b < 256) (extract_token r)
    → (authorize f double_of c r ≡ none)
      ↔ ((requires_auth c r ≡ false) ⊎ (extract_token r ≡ c.token))
unfolding authorize
authorize-none f double_of c r p q =
    let same = constant_time_equals-text_eq (extract_token r) c.token q p in
    let needs = requires_auth c r in
    let brings =
      not (is_empty (extract_token r)) && constant_time_equals (extract_token r) c.token in
    (
      λ h. elim (choice-none needs brings _ h) [
        | inl e ↦ inl e
        | inr e ↦ inr ((text_eq_iff _ _).0 (ground (arith, same, e)))
      ],
      λ h. elim (Bool-cases needs) [
        | inr e ↦ choice_passes needs brings _ (inl e)
        | inl e ↦ choice_passes needs brings _ (elim h [
          | inl absent ↦ inl absent
          | inr eq ↦ inr (
              ground
                (arith, same, (text_eq_iff _ _).1 eq, ap is_empty eq, requires_auth-enabled c r e))
        ])
      ],
    )

requires_auth-slashes :
    (c : AuthConfig) (r : HttpRequest) (s : Text)
    → requires_auth c (record r { path = b'/' ∷ b'/' ∷ s }) ≡ false
unfolding requires_auth is_protected_path starts_with text_eq
requires_auth-slashes c r s = ground arith

-- Two slashes at the front of a path keep a request from being checked, but lead to the same route as
-- one.
pub authorize-slashes :
    (f : Floats) (double_of : ℕ → ℕ) (c : AuthConfig) (r : HttpRequest) (s : Text) {H : Type 0}
    (routes : List (Route H))
    → (authorize f double_of c (record r { path = b'/' ∷ b'/' ∷ s }) ≡ none)
      × (match_route routes r.method (b'/' ∷ b'/' ∷ s) ≡ match_route routes r.method (b'/' ∷ s))
unfolding authorize match_route split_path_from
authorize-slashes f double_of c r s routes =
    (choice_passes _ _ _ (inl (requires_auth-slashes c r s)), refl)
