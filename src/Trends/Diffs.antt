-- ===== src/Trends/Diffs.antt =====
-- The differences between two runs: one for each scenario of either, and how they are counted.
use mathlib.Core.Path.{subst}
use testhub.Base.{
  ℕ, suc, ◌+◌, ◌≡◌, refl, ◌∙◌, arith, inl, inr, true, not, ◌||◌, List, [], ◌∷◌, map, length, Text,
  text_eq, keep, has, find, insert, find-insert, Map, mem_text, IsDistinct, Bool-cases, Above,
  IsOrdered, insert-IsOrdered, IsDistinct-append, IsDistinct-keep, mem_text-keep, mem_text-append,
  text_eq_iff, text_lt, text_lt_trans, text_lt_irrefl,
}
use testhub.Model.{TestResult}
use testhub.Trends.{
  ScenarioDiff, ScenarioSnap, ComparisonSummary, no_summary, summarize_diff, summarize_from,
  summarize_diffs, all_keys, keys, diff_of, index_snaps, snap_key, flatten_scenarios,
  compare_scenarios,
}

-- How many differences a summary counts.
abbrev pub total : ComparisonSummary → ℕ
total s = s.regressed + s.improved + s.still_failed + s.unchanged + s.added + s.removed

total-summarize_diff :
    (s : ComparisonSummary) (c : Text) → total (summarize_diff s c) ≡ suc (total s)
unfolding summarize_diff
total-summarize_diff s c = ground arith

total-summarize_from :
    (s : ComparisonSummary) (ds : List ScenarioDiff)
    → total (summarize_from s ds) ≡ total s + length ds
unfolding summarize_from
total-summarize_from s [] = omega arith
total-summarize_from s (d ∷ ds) =
    omega
      (arith, total-summarize_from (summarize_diff s d.change) ds, total-summarize_diff s d.change)

-- Every difference is counted once, under one heading.
total-summarize_diffs : (ds : List ScenarioDiff) → total (summarize_diffs ds) ≡ length ds
total-summarize_diffs ds = omega (arith, total-summarize_from no_summary ds)

mem_text-keys {ℓ} : {V : Type ℓ} (k : Text) (m : Map V) → mem_text k (keys m) ≡ has k m
unfolding find
mem_text-keys k [] = refl
mem_text-keys k ((j, v) ∷ m) = ground (arith, mem_text-keys k m)

Above-keys {ℓ} :
    {V : Type ℓ} (k j : Text) (m : Map V)
    → Above k m
    → mem_text j (keys m) ≡ true
    → text_lt k j ≡ true
Above-keys k j [] a h = cc
Above-keys k j ((i, v) ∷ m) a h = elim (Bool-cases (text_eq i j)) [
  | inl e ↦ let same : i ≡ j = (text_eq_iff i j).0 e in subst (λ x. text_lt k x ≡ true) same a.0
  | inr e ↦ text_lt_trans k i j a.0 (Above-keys i j m a.1 (ground arith))
]

IsDistinct-keys {ℓ} : {V : Type ℓ} (m : Map V) → IsOrdered m → IsDistinct (keys m)
IsDistinct-keys [] o = tt
IsDistinct-keys ((j, v) ∷ []) o = (refl, tt)
IsDistinct-keys ((j, v) ∷ (i, w) ∷ m) o = (
  ground (arith, Above-keys j j ((i, w) ∷ m) o, text_lt_irrefl j),
  IsDistinct-keys ((i, w) ∷ m) o.1,
)

index_snaps-IsOrdered :
    (ss : List ScenarioSnap) (m : Map ScenarioSnap) → IsOrdered m → IsOrdered (index_snaps ss m)
unfolding index_snaps
index_snaps-IsOrdered [] m o = o
index_snaps-IsOrdered (s ∷ ss) m o =
    index_snaps-IsOrdered ss (insert (snap_key s) s m) (insert-IsOrdered (snap_key s) s m o)

index_snaps-has :
    (k : Text) (ss : List ScenarioSnap) (m : Map ScenarioSnap)
    → has k (index_snaps ss m) ≡ (mem_text k (map snap_key ss) || has k m)
unfolding index_snaps
index_snaps-has k [] m = refl
index_snaps-has k (s ∷ ss) m =
    index_snaps-has k ss (insert (snap_key s) s m) ∙ ground (arith, find-insert k (snap_key s) s m)

-- The keys of the scenarios of a run.
abbrev pub scenario_keys : TestResult → List Text
scenario_keys r = map snap_key (flatten_scenarios r)

abbrev pub index_of : TestResult → Map ScenarioSnap
index_of r = index_snaps (flatten_scenarios r) []

-- A comparison has one difference for each scenario of either run, whatever the order in which they
-- ran, and no scenario twice: the differences are those of a list of keys without repetition that
-- holds exactly the keys of the two runs.
pub compare_scenarios-keys :
    (baseline current : TestResult)
    → (ks : List Text) × IsDistinct ks
      × ((k : Text)
          → mem_text k ks
            ≡ (mem_text k (scenario_keys baseline) || mem_text k (scenario_keys current)))
      × (compare_scenarios baseline current
          ≡ map (λ k. diff_of (find k (index_of baseline)) (find k (index_of current))) ks)
unfolding compare_scenarios find
compare_scenarios-keys baseline current =
    let left = index_of baseline in
    let right = index_of current in
    (
      all_keys left right,
      IsDistinct-append (keys left) _
          (IsDistinct-keys left (index_snaps-IsOrdered (flatten_scenarios baseline) [] tt))
          (IsDistinct-keep _ (keys right)
            (IsDistinct-keys right (index_snaps-IsOrdered (flatten_scenarios current) [] tt)))
          (λ k h.
            mem_text-keep (λ j. not (has j left)) k (keys right)
            ∙ ground (arith, h, mem_text-keys k left)),
      λ k.
          mem_text-append k (keys left) (keep (λ j. not (has j left)) (keys right))
          ∙ ground (
            arith,
            mem_text-keep (λ j. not (has j left)) k (keys right),
            mem_text-keys k left,
            mem_text-keys k right,
            index_snaps-has k (flatten_scenarios baseline) [],
            index_snaps-has k (flatten_scenarios current) [],
          ),
      refl,
    )
