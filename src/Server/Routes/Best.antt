-- ===== src/Server/Routes/Best.antt =====
-- `matchRoute` finds the best route: the first of those with the highest score.
use testhub.Base.{
  ℕ, ◌≤◌, ◌<◌, ◌≡◌, refl, sym, ap, ◌∙◌, arith, Bool, true, false, not, Bool-cases, ◌&&◌, ◌||◌,
  Option, none, some, Option-cases, inl, inr, List, [], ◌∷◌, ◌++◌, All, All-append, All-mono, any,
  is_some, Text, text_eq, Map, if◌then◌else◌,
}
use mathlib.Core.List.{append_assoc, append-nil}
use testhub.Server.Routes.{
  Route, Found, Search, match_path, beats, consider, consider_all, split_path, match_route,
}

abbrev pub fit : Option (ℕ × Map Text) → Option ℕ
fit none = none
fit (some (score, _)) = some score

module _ {H : Type 0} (method : Text) (segments : List Text) where
  -- The score of a route of the right method whose pattern fits.
  unfoldable pub score_of : Route H → Option ℕ
  score_of r = if text_eq r.method method then fit (match_path r segments) else none

  -- A route that fits has a lower score, or none that is higher.
  abbrev pub Below : ℕ → Route H → Type 0
  Below n r = (k : ℕ) → score_of r ≡ some k → k < n

  abbrev pub AtMost : ℕ → Route H → Type 0
  AtMost n r = (k : ℕ) → score_of r ≡ some k → k ≤ n

  -- `best` is the first of the routes with the highest score, or no route fits.
  pub data Best : List (Route H) → Option (Found H) → Type 0 where
    no_route : {routes : List (Route H)} → All (λ r. score_of r ≡ none) routes → Best routes none
    first_best :
        {routes : List (Route H)} {b : Found H} (before after : List (Route H))
        → routes ≡ before ++ (b.route ∷ after)
        → score_of b.route ≡ some b.score
        → All (Below b.score) before
        → All (AtMost b.score) after
        → Best routes (some b)

  -- What one route makes of the best so far.
  data Considered (r : Route H) (old : Option (Found H)) : Option (Found H) → Type 0 where
    stays : score_of r ≡ none → Considered r old old
    loses : (k : ℕ) → score_of r ≡ some k → beats k old ≡ false → Considered r old old
    wins :
        (b : Found H)
        → b.route ≡ r
        → score_of r ≡ some b.score
        → beats b.score old ≡ true
        → Considered r old (some b)

  consider-Considered :
      (m : Search H) (r : Route H) → Considered r (m.best) ((consider method segments m r).best)
  unfolding consider score_of
  consider-Considered m r = elim (Option-cases (match_path r segments)) [
    | inl e ↦ rw (e, consider) (stays (ground (arith, e, ap fit e)))
    | inr ((k, params), e) ↦ elim (Bool-cases (text_eq r.method method)) [
      | inr t ↦ rw (e, t, consider) (stays (rw t refl))
      | inl t ↦ elim (Bool-cases (beats k m.best)) [
        | inl w ↦
            rw (e, t, w, consider)
              (wins (record { route = r; score = k; params = params }) refl (rw (t, e) refl) w)
        | inr w ↦ rw (e, t, w, consider) (loses k (rw (t, e) refl) w)
      ]
    ]
  ]

  AtMost-none : (n : ℕ) (r : Route H) → score_of r ≡ none → AtMost n r
  AtMost-none n r h k e = ground (arith, h, e)

  Below-none : (n : ℕ) (r : Route H) → score_of r ≡ none → Below n r
  Below-none n r h k e = ground (arith, h, e)

  AtMost-le : (n k : ℕ) (r : Route H) → score_of r ≡ some k → k ≤ n → AtMost n r
  AtMost-le n k r h l j e = ground (arith, h, e, l)

  Below-le : (n m : ℕ) (r : Route H) → n < m → AtMost n r → Below m r
  Below-le n m r l h k e = omega (arith, h k e, l)

  -- All routes that were seen are below a score that beats the best of them.
  Best-Below :
      {done : List (Route H)} {old : Option (Found H)} (n : ℕ)
      → Best done old
      → beats n old ≡ true
      → All (Below n) done
  Best-Below n (no_route h) w = All-mono _ _ _ (Below-none n) h
  Best-Below n (first_best {b = b} before after split h hb ha) w =
      let l : b.score < n = ground (arith, w) in
      let here : Below n b.route =
        Below-le b.score n b.route l (AtMost-le b.score b.score b.route h (omega arith)) in
      rw split (
        All-append (Below n) before (b.route ∷ after)
          (All-mono (Below b.score) (Below n) before (λ r g k e. omega (arith, g k e, l)) hb)
          (here, All-mono (AtMost b.score) (Below n) after (λ r. Below-le b.score n r l) ha))

  Considered-Best :
      {done : List (Route H)} {r : Route H} {old new : Option (Found H)}
      → Best done old
      → Considered r old new
      → Best (done ++ (r ∷ [])) new
  Considered-Best (no_route h) (stays n) = no_route (All-append _ _ _ h (n, tt))
  Considered-Best {r = r} (first_best {b = b} before after split h hb ha) (stays n) =
      first_best before (after ++ (r ∷ []))
        (ap (λ l. l ++ (r ∷ [])) split ∙ append_assoc before _ _) h hb
        (All-append _ after _ ha (AtMost-none b.score r n, tt))
  Considered-Best (no_route h) (loses k e l) = ground (arith, l)
  Considered-Best {r = r} (first_best {b = b} before after split h hb ha) (loses k e l) =
      first_best before (after ++ (r ∷ []))
        (ap (λ l. l ++ (r ∷ [])) split ∙ append_assoc before _ _) h hb
        (All-append _ after _ ha (AtMost-le b.score k r e (ground (arith, l)), tt))
  Considered-Best {done = done} b (wins f same e w) =
      first_best done [] (ap (λ x. done ++ (x ∷ [])) (sym same)) (ap score_of same ∙ e)
        (Best-Below f.score b w) tt

  consider_all-Best :
      (routes done : List (Route H)) (m : Search H)
      → Best done m.best
      → Best (done ++ routes) ((consider_all method segments routes m).best)
  unfolding consider_all
  consider_all-Best [] done m b = rw (append-nil done) b
  consider_all-Best (r ∷ routes) done m b = rw (sym (append_assoc done (r ∷ []) routes)) (
      consider_all-Best routes (done ++ (r ∷ [])) (consider method segments m r)
        (Considered-Best b (consider-Considered m r)))

  -- The route fits the path, but has another method.
  abbrev pub other_method : Route H → Bool
  other_method r = is_some (match_path r segments) && not (text_eq r.method method)

  consider-mismatch :
      (m : Search H) (r : Route H)
      → (consider method segments m r).mismatch ≡ (m.mismatch || other_method r)
  unfolding consider
  consider-mismatch m r = elim (Option-cases (match_path r segments)) [
    | inl e ↦ rw (e, consider) (ground arith)
    | inr ((k, params), e) ↦ elim (Bool-cases (text_eq r.method method)) [
      | inr t ↦ rw (e, t, consider) (ground arith)
      | inl t ↦ elim (Bool-cases (beats k m.best)) [
        | inl w ↦ rw (e, t, w, consider) (ground arith)
        | inr w ↦ rw (e, t, w, consider) (ground arith)
      ]
    ]
  ]

  consider_all-mismatch :
      (routes : List (Route H)) (m : Search H)
      → (consider_all method segments routes m).mismatch ≡ (m.mismatch || any other_method routes)
  unfolding consider_all
  consider_all-mismatch [] m = ground arith
  consider_all-mismatch (r ∷ routes) m =
      ground
        (arith, consider_all-mismatch routes (consider method segments m r), consider-mismatch m r)

-- The route that matchRoute returns is the first of those that fit with the highest score. It returns
-- none only if no route fits, and then says whether one of another method would.
pub match_route-Best :
    {H : Type 0} (routes : List (Route H)) (method path : Text)
    → Best method (split_path path) routes ((match_route routes method path).best)
      × ((match_route routes method path).mismatch ≡ (
          not (is_some (match_route routes method path).best)
          && any (other_method method (split_path path)) routes))
unfolding match_route
match_route-Best {H = H} routes method path =
    let segments = split_path path in
    let start : Search H = record { best = none; mismatch = false } in
    let m = consider_all method segments routes start in
    let best = consider_all-Best method segments routes [] start (no_route tt) in
    let mismatch = consider_all-mismatch method segments routes start in
    elim (Option-cases m.best) [
      | inl e ↦ rw (e, match_route) (best, mismatch ∙ rw e refl)
      | inr (b, e) ↦ rw (e, match_route) (best, rw e refl)
    ]
