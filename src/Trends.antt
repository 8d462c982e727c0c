-- ===== src/Trends.antt =====
-- src/engine/trends.h: the history of the runs, by specification, and the comparison of two runs.
-- The conversions to JSON are left out.

pub mod Diffs
pub mod Series
use testhub.Base.{
  ℕ, zero, suc, ◌+◌, ◌-◌, Bool, true, false, not, ◌&&◌, ◌||◌, List, [], ◌∷◌, ◌++◌, map, Option,
  none, some, length, is_empty, keep, drop, ltb, if◌then◌else◌, Text, codes, text_eq, to_string,
  mem_text, Map, find, insert, has, or_else,
}
use testhub.Base.Int.{ℤ, pos, negsuc}
use testhub.Model.{
  TestState, failed, skipped, test_error, ScenarioResult, SpecResult, TestResult, state_eq,
}

pub record TrendRun : Type 0 where
  pub test_id : Text
  pub name : Text
  pub state : TestState
  pub end_time : ℕ
  pub duration : ℕ
  pub total_scenarios : ℕ
  pub passed_scenarios : ℕ
  pub failed_scenarios : ℕ
  pub skipped_scenarios : ℕ
  pub spec_files : List Text

pub record SpecTrendSeries : Type 0 where
  pub spec_file : Text
  pub points : List TrendRun

-- `bySpec[spec].push_back(run)`.
abbrev pub push_run : Text → TrendRun → Map (List TrendRun) → Map (List TrendRun)
push_run spec run by_spec = insert spec (or_else (find spec by_spec) [] ++ (run ∷ [])) by_spec

-- The loop over the files of one run, with the set of those seen.
unfoldable pub group_run :
    Text → TrendRun → List Text → List Text → Map (List TrendRun) → Map (List TrendRun)
group_run filter run seen [] by_spec = by_spec
group_run filter run seen (spec ∷ specs) by_spec =
    let pushed =
      if is_empty filter || text_eq spec filter then push_run spec run by_spec else by_spec in
    if mem_text spec seen
    then group_run filter run seen specs by_spec
    else group_run filter run (spec ∷ seen) specs pushed

unfoldable pub group_runs : Text → List TrendRun → Map (List TrendRun) → Map (List TrendRun)
group_runs filter [] by_spec = by_spec
group_runs filter (run ∷ runs) by_spec =
    group_runs filter runs (group_run filter run [] run.spec_files by_spec)

-- The last `n` elements.
abbrev pub keep_last {ℓ} : {A : Type ℓ} → ℕ → List A → List A
keep_last n xs = if ltb n (length xs) then drop (length xs - n) xs else xs

unfoldable pub series_of : ℕ → Map (List TrendRun) → List SpecTrendSeries
series_of n =
    map
      λ (entry : Text × List TrendRun). record { spec_file = entry.0; points = keep_last n entry.1 }

unfoldable pub group_trends : List TrendRun → Text → ℕ → List SpecTrendSeries
group_trends chronological filter max_points =
    let n = if ltb max_points 1 then 1 else max_points in
    let each = series_of n (group_runs filter chronological []) in
    if is_empty filter && not (is_empty chronological)
    then record { spec_file = codes "(all)"; points = keep_last n chronological } ∷ each
    else each

int_to_string : ℤ → Text
int_to_string (pos n) = to_string n
int_to_string (negsuc n) = b'-' ∷ to_string (n + 1)

unfoldable pub scenario_key : Text → Text → ℤ → Text
unfolding int_to_string
scenario_key spec name row = spec ++ (10 ∷ (name ++ (10 ∷ int_to_string row)))

pub record ScenarioSnap : Type 0 where
  pub spec_file : Text
  pub scenario_name : Text
  pub data_row_index : ℤ
  pub state : TestState
  pub duration : ℕ

abbrev pub snap_of : SpecResult → ScenarioResult → ScenarioSnap
snap_of spec sc = record {
  spec_file = spec.spec_file;
  scenario_name = sc.scenario_name;
  data_row_index = sc.data_row_index;
  state = sc.state;
  duration = sc.duration;
}

unfoldable pub flatten_specs : List SpecResult → List ScenarioSnap
flatten_specs [] = []
flatten_specs (spec ∷ specs) = map (snap_of spec) spec.scenario_results ++ flatten_specs specs

abbrev pub flatten_scenarios : TestResult → List ScenarioSnap
flatten_scenarios r = flatten_specs r.spec_results

abbrev pub scenario_failed : TestState → Bool
scenario_failed s = state_eq s failed || state_eq s test_error

pub record ScenarioDiff : Type 0 where
  pub spec_file : Text
  pub scenario_name : Text
  pub data_row_index : ℤ
  pub change : Text
  pub baseline : TestState
  pub current : TestState
  pub duration_baseline : ℕ
  pub duration_current : ℕ

abbrev pub snap_key : ScenarioSnap → Text
snap_key s = scenario_key s.spec_file s.scenario_name s.data_row_index

-- `left[scenarioKey(...)] = s`, for each scenario of a result.
unfoldable pub index_snaps : List ScenarioSnap → Map ScenarioSnap → Map ScenarioSnap
index_snaps [] m = m
index_snaps (s ∷ ss) m = index_snaps ss (insert (snap_key s) s m)

abbrev pub keys {ℓ} : {V : Type ℓ} → Map V → List Text
keys = map λ entry. entry.0

abbrev pub all_keys : Map ScenarioSnap → Map ScenarioSnap → List Text
all_keys left right = keys left ++ keep (λ k. not (has k left)) (keys right)

unfoldable pub change_of : TestState → TestState → Text
change_of baseline current =
    if scenario_failed baseline && not (scenario_failed current)
    then codes "improved"
    else if not (scenario_failed baseline) && scenario_failed current
    then codes "regressed"
    else if scenario_failed baseline && scenario_failed current
    then codes "still_failed"
    else codes "unchanged"

-- A key that neither map has does not occur; its difference has the initial values.
unfoldable pub diff_of : Option ScenarioSnap → Option ScenarioSnap → ScenarioDiff
diff_of none none = record {
  spec_file = [];
  scenario_name = [];
  data_row_index = negsuc 0;
  change = codes "added";
  baseline = skipped;
  current = skipped;
  duration_baseline = 0;
  duration_current = 0;
}
diff_of none (some r) = record {
  spec_file = r.spec_file;
  scenario_name = r.scenario_name;
  data_row_index = r.data_row_index;
  change = codes "added";
  baseline = skipped;
  current = r.state;
  duration_baseline = 0;
  duration_current = r.duration;
}
diff_of (some l) none = record {
  spec_file = l.spec_file;
  scenario_name = l.scenario_name;
  data_row_index = l.data_row_index;
  change = codes "removed";
  baseline = l.state;
  current = skipped;
  duration_baseline = l.duration;
  duration_current = 0;
}
diff_of (some l) (some r) = record {
  spec_file = r.spec_file;
  scenario_name = r.scenario_name;
  data_row_index = r.data_row_index;
  change = change_of l.state r.state;
  baseline = l.state;
  current = r.state;
  duration_baseline = l.duration;
  duration_current = r.duration;
}

abbrev pub diffs_of : Map ScenarioSnap → Map ScenarioSnap → List ScenarioDiff
diffs_of left right = map (λ k. diff_of (find k left) (find k right)) (all_keys left right)

unfoldable pub compare_scenarios : TestResult → TestResult → List ScenarioDiff
compare_scenarios baseline current =
    diffs_of (index_snaps (flatten_scenarios baseline) [])
      (index_snaps (flatten_scenarios current) [])

pub record ComparisonSummary : Type 0 where
  pub regressed : ℕ
  pub improved : ℕ
  pub still_failed : ℕ
  pub unchanged : ℕ
  pub added : ℕ
  pub removed : ℕ

abbrev pub no_summary : ComparisonSummary
no_summary = record {
  regressed = 0;
  improved = 0;
  still_failed = 0;
  unchanged = 0;
  added = 0;
  removed = 0;
}

-- The body of the loop of `summarizeDiffs`.
unfoldable pub summarize_diff : ComparisonSummary → Text → ComparisonSummary
summarize_diff s change =
    if text_eq change (codes "regressed")
    then record s { regressed = s.regressed + 1 }
    else if text_eq change (codes "improved")
    then record s { improved = s.improved + 1 }
    else if text_eq change (codes "still_failed")
    then record s { still_failed = s.still_failed + 1 }
    else if text_eq change (codes "added")
    then record s { added = s.added + 1 }
    else if text_eq change (codes "removed")
    then record s { removed = s.removed + 1 }
    else record s { unchanged = s.unchanged + 1 }

unfoldable pub summarize_from : ComparisonSummary → List ScenarioDiff → ComparisonSummary
summarize_from s [] = s
summarize_from s (d ∷ ds) = summarize_from (summarize_diff s d.change) ds

abbrev pub summarize_diffs : List ScenarioDiff → ComparisonSummary
summarize_diffs = summarize_from no_summary

pub record TestComparison : Type 0 where
  pub current_id : Text
  pub baseline_id : Text
  pub current_name : Text
  pub baseline_name : Text
  pub current_state : TestState
  pub baseline_state : TestState
  pub current_duration : ℕ
  pub baseline_duration : ℕ
  pub current_end : ℕ
  pub baseline_end : ℕ
  pub auto_baseline : Bool
  pub diffs : List ScenarioDiff
