-- ===== src/Trends/Series.antt =====
-- The history of a specification: the runs that name it, in their order, and the latest of them.
use mathlib.Core.List.{append-nil, append_assoc}
use testhub.Base.{
  ℕ, ◌-◌, ◌≤◌, ◌≡◌, refl, sym, ap, ◌∙◌, arith, inl, inr, Bool, not, ◌&&◌, ◌||◌, List, [], ◌∷◌, ◌++◌,
  or_else, length, length-drop, if◌then◌else◌, ltb, keep, Text, text_eq, text_eq_iff, mem_text, Map,
  find, find-insert, Bool-cases, All, is_empty, max, ltb→lt,
}
use testhub.Trends.{TrendRun, push_run, group_run, group_runs, keep_last, series_of, group_trends}

-- The runs of a specification so far.
abbrev pub runs_of : Text → Map (List TrendRun) → List TrendRun
runs_of spec m = or_else (find spec m) []

abbrev pub is_wanted : Text → Text → Bool
is_wanted filter spec = is_empty filter || text_eq spec filter

-- Two parts added behind `xs`, one after the other.
glue :
    (xs a b c : List TrendRun)
    → a ++ b ≡ c
    → (ys : List TrendRun) → ys ≡ xs ++ a
    → ys ++ b ≡ xs ++ c
glue xs a b c e ys h = ap (λ l. l ++ b) h ∙ append_assoc xs a b ∙ ap (λ l. xs ++ l) e

-- What one run adds to a specification.
abbrev added : Text → TrendRun → Text → Bool → List TrendRun
added filter run spec named = if named && is_wanted filter spec then run ∷ [] else []

runs_of-push_run :
    (spec s : Text) (run : TrendRun) (m : Map (List TrendRun))
    → runs_of spec (push_run s run m) ≡ runs_of spec m ++ (if text_eq s spec then run ∷ [] else [])
runs_of-push_run spec s run m = elim (Bool-cases (text_eq s spec)) [
  | inl e ↦
      let same : s ≡ spec = (text_eq_iff s spec).0 e in
      rw (find-insert spec s (runs_of s m ++ (run ∷ [])) m, e, same) refl
  | inr e ↦ rw (find-insert spec s (runs_of s m ++ (run ∷ [])) m, e) (sym (append-nil _))
]

-- What is pushed for one file.
abbrev pushed : Text → TrendRun → Text → Map (List TrendRun) → Map (List TrendRun)
pushed filter run s m = if is_wanted filter s then push_run s run m else m

runs_of-pushed :
    (filter : Text) (run : TrendRun) (spec s : Text) (m : Map (List TrendRun))
    → runs_of spec (pushed filter run s m)
      ≡ runs_of spec m ++ added filter run spec (text_eq s spec)
runs_of-pushed filter run spec s m = elim (Bool-cases (is_wanted filter s)) [
  | inl w ↦ rw w (
      runs_of-push_run spec s run m
      ∙ ap (λ l. runs_of spec m ++ l) (ground (arith, text_eq_iff s spec)))
  | inr w ↦
      rw w (sym (append-nil _) ∙ ap (λ l. runs_of spec m ++ l) (ground (arith, text_eq_iff s spec)))
]

runs_of-group_run :
    (filter : Text) (run : TrendRun) (spec : Text) (seen specs : List Text)
    (m : Map (List TrendRun))
    → runs_of spec (group_run filter run seen specs m)
      ≡ runs_of spec m ++ added filter run spec (mem_text spec specs && not (mem_text spec seen))
unfolding group_run
runs_of-group_run filter run spec seen [] m = sym (append-nil _)
runs_of-group_run filter run spec seen (s ∷ specs) m = elim (Bool-cases (mem_text s seen)) [
  | inl old ↦ rw old (
      runs_of-group_run filter run spec seen specs m
      ∙ ap (λ l. runs_of spec m ++ l) (ground (arith, text_eq_iff s spec)))
  | inr new ↦ rw new (
      runs_of-group_run filter run spec (s ∷ seen) specs (pushed filter run s m)
      ∙ glue (runs_of spec m) (added filter run spec (text_eq s spec))
          (added filter run spec (mem_text spec specs && not (mem_text spec (s ∷ seen))))
          (added filter run spec (mem_text spec (s ∷ specs) && not (mem_text spec seen)))
          (ground (arith, text_eq_iff s spec)) (runs_of spec (pushed filter run s m))
          (runs_of-pushed filter run spec s m))
]

runs_of-group_runs :
    (filter spec : Text) (runs : List TrendRun) (m : Map (List TrendRun))
    → runs_of spec (group_runs filter runs m)
      ≡ runs_of spec m ++ keep (λ run. mem_text spec run.spec_files && is_wanted filter spec) runs
unfolding group_runs
runs_of-group_runs filter spec [] m = sym (append-nil _)
runs_of-group_runs filter spec (run ∷ runs) m =
    let kept = keep (λ (r : TrendRun). mem_text spec r.spec_files && is_wanted filter spec) in
    runs_of-group_runs filter spec runs (group_run filter run [] run.spec_files m)
    ∙ glue (runs_of spec m)
        (added filter run spec (mem_text spec run.spec_files && not (mem_text spec []))) (kept runs)
        (kept (run ∷ runs)) (ground arith) (runs_of spec (group_run filter run [] run.spec_files m))
        (runs_of-group_run filter run spec [] run.spec_files m)

-- A specification's series holds the runs that name it, in the order of the runs, each once however
-- often it names it; with a filter only the series of that specification has runs.
group_runs-keep :
    (filter spec : Text) (runs : List TrendRun)
    → runs_of spec (group_runs filter runs [])
      ≡ keep (λ run. mem_text spec run.spec_files && is_wanted filter spec) runs
unfolding find
group_runs-keep filter spec runs = runs_of-group_runs filter spec runs []

keep_last-le : (n : ℕ) (xs : List TrendRun) → length (keep_last n xs) ≤ n
keep_last-le n xs = elim (Bool-cases (ltb n (length xs))) [
  | inl e ↦ rw e (omega (arith, length-drop (length xs - n) xs, ltb→lt n (length xs) e))
  | inr e ↦ rw e (ground arith)
]

series_of-short : (n : ℕ) (m : Map (List TrendRun)) → All (λ s. length s.points ≤ n) (series_of n m)
unfolding series_of
series_of-short n [] = tt
series_of-short n ((k, runs) ∷ m) = (keep_last-le n runs, series_of-short n m)

-- No series is longer than the number asked for, which is at least 1.
group_trends-short :
    (runs : List TrendRun) (filter : Text) (n : ℕ)
    → All (λ s. length s.points ≤ max 1 n) (group_trends runs filter n)
unfolding group_trends
group_trends-short runs filter n =
    let m = if ltb n 1 then 1 else n in
    let same : m ≡ max 1 n = ground arith in
    let each = series_of-short m (group_runs filter runs []) in
    rw (sym same) (elim (Bool-cases (is_empty filter && not (is_empty runs))) [
      | inl e ↦ rw e (keep_last-le m runs, each)
      | inr e ↦ rw e each
    ])
