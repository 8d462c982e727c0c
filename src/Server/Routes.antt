-- ===== src/Server/Routes.antt =====
-- src/server/http_server.cpp: splitPath, addRoute, matchRoute.
pub mod Best
use testhub.Base.{
  ℕ, ◌+◌, ◌==◌, Bool, true, false, not, ◌&&◌, ◌||◌, Option, none, some, List, [], ◌∷◌, ◌++◌,
  reverse, length, is_empty, ltb, Text, codes, text_eq, Map, insert, if◌then◌else◌,
}
use testhub.StringUtil.{to_upper, starts_with, ends_with}

-- The loop of `splitPath` with the segment read so far.
unfoldable pub split_path_from : Text → Text → List Text
split_path_from [] current = if is_empty current then [] else current ∷ []
split_path_from (c ∷ s) current = elim (c == b'/') [
  | true ↦ if is_empty current then split_path_from s [] else current ∷ split_path_from s []
  | false ↦ split_path_from s (current ++ (c ∷ []))
]

abbrev pub split_path : Text → List Text
split_path path = split_path_from path []

pub record Route {ℓ} (H : Type ℓ) : Type ℓ where
  pub method : Text
  pub segments : List Text
  pub wildcard : Bool
  pub handler : H

-- The segments without a `*` at the end, and whether there is one.
unfoldable pub strip_star : List Text → List Text × Bool
strip_star [] = ([], false)
strip_star (s ∷ []) = if text_eq s (codes "*") then ([], true) else (s ∷ [], false)
strip_star (s ∷ t ∷ ss) = let (rest, star) = strip_star (t ∷ ss) in (s ∷ rest, star)

unfoldable pub add_route {ℓ} : {H : Type ℓ} → List (Route H) → Text → Text → H → List (Route H)
add_route routes method path handler =
    let (segments, wildcard) = strip_star (split_path path) in
    routes
    ++ (record {
      method = to_upper method;
      segments = segments;
      wildcard = wildcard;
      handler = handler;
    }
        ∷ [])

abbrev but_last : Text → Text
but_last [] = []
but_last (x ∷ []) = []
but_last (x ∷ y ∷ s) = x ∷ but_last (y ∷ s)

-- `{name}` without its braces.
unfoldable pub param_name : Text → Option Text
param_name [] = none
param_name (c ∷ s) = if c == b'{' && ends_with s (codes "}") then some (but_last s) else none

-- The loop over the segments of a route, with the score and the parameters so far, and the segments
-- of the path that are left at its end.
unfoldable pub match_segments :
    List Text → List Text → ℕ → Map Text → Option (ℕ × (Map Text × List Text))
match_segments [] segments score params = some (score, (params, segments))
match_segments (pat ∷ pats) [] score params = none
match_segments (pat ∷ pats) (s ∷ segments) score params = elim (param_name pat) [
  | some name ↦ match_segments pats segments score (insert name s params)
  | none ↦ elim (text_eq pat s) [
    | true ↦ match_segments pats segments (score + 2) params
    | false ↦ none
  ]
]

-- The path that a wildcard stands for.
unfoldable pub rest_of : List Text → Text → Text
rest_of [] rest = rest
rest_of (s ∷ segments) rest =
    rest_of segments ((if is_empty rest then rest else rest ++ (b'/' ∷ [])) ++ s)

-- One round of the loop of `matchRoute` up to the test of the method: the score and the parameters.
unfoldable pub match_path {ℓ} : {H : Type ℓ} → Route H → List Text → Option (ℕ × Map Text)
match_path r segments =
    if (if r.wildcard
      then ltb (length segments) (length r.segments)
      else not (length segments == length r.segments))
    then none
    else (elim (match_segments r.segments segments 0 []) [
      | none ↦ none
      | some (score, (params, left)) ↦
          if r.wildcard
          then some (score, insert (codes "*") (rest_of left []) params)
          else some (score + 1, params)
    ])

pub record Found {ℓ} (H : Type ℓ) : Type ℓ where
  pub route : Route H
  pub score : ℕ
  pub params : Map Text

-- `best` with its score and parameters, and `methodMismatch`.
pub record Search {ℓ} (H : Type ℓ) : Type ℓ where
  pub best : Option (Found H)
  pub mismatch : Bool

-- `score > bestScore`, where the best score is -1 at first.
abbrev pub beats {ℓ} : {H : Type ℓ} → ℕ → Option (Found H) → Bool
beats score none = true
beats score (some b) = ltb b.score score

unfoldable pub consider {ℓ} : {H : Type ℓ} → Text → List Text → Search H → Route H → Search H
consider method segments m r = elim (match_path r segments) [
  | none ↦ m
  | some (score, params) ↦
      if not (text_eq r.method method)
      then record m { mismatch = true }
      else if beats score m.best
      then record m { best = some (record { route = r; score = score; params = params }) }
      else m
]

unfoldable pub consider_all {ℓ} :
    {H : Type ℓ} → Text → List Text → List (Route H) → Search H → Search H
consider_all method segments [] m = m
consider_all method segments (r ∷ rs) m =
    consider_all method segments rs (consider method segments m r)

-- A match leaves `methodMismatch` false.
unfoldable pub match_route {ℓ} : {H : Type ℓ} → List (Route H) → Text → Text → Search H
match_route routes method path =
    let m =
      consider_all method (split_path path) routes (record { best = none; mismatch = false }) in
    elim m.best [ none ↦ m | some b ↦ record m { mismatch = false } ]
