-- ===== src/Engine/Queries.antt =====
-- src/engine/execution_engine.cpp, what the engine is asked: exists, getStatus, getResult,
-- getRecord, list, count, stats, hasActiveTests, trendRuns and compareTests.

pub mod Listing
pub mod Counting
pub mod Baseline
use testhub.Base.{
  ℕ, zero, suc, ◌+◌, Bool, true, false, not, ◌&&◌, ◌||◌, List, [], ◌∷◌, ◌++◌, map, reverse, Option,
  none, some, length, is_empty, any, keep, ltb, leb, ◌==◌, if◌then◌else◌, Text, codes, text_eq,
  text_lt, mem_text, Map, find, has,
}
use testhub.Model.{
  TestState, queued, running, cancelled, TestStatus, TestResult, TestInfo, SpecResult,
  is_terminal_state, test_state_to_string, state_eq,
}
use testhub.Engine.{TestRecord, EngineStats, Engine}
use testhub.Trends.{TrendRun, TestComparison, compare_scenarios}

abbrev pub exists : Engine → Text → Bool
exists e id = has id e.records

unfoldable pub get_status : Engine → Text → Option TestStatus
get_status e id = elim (find id e.records) [ none ↦ none | some r ↦ some r.status ]

unfoldable pub get_result : Engine → Text → Option TestResult
get_result e id = elim (find id e.records) [
  | none ↦ none
  | some r ↦ if r.has_result then some r.result else none
]

abbrev pub get_record : Engine → Text → Option TestRecord
get_record e id = find id e.records

abbrev pub is_active_state : TestState → Bool
is_active_state s = state_eq s queued || state_eq s running

-- The filter of `list`.
unfoldable pub list_selects : Text → TestState → Bool
list_selects state s =
    if is_empty state
    then true
    else if text_eq state (codes "active")
    then is_active_state s
    else if text_eq state (codes "finished")
    then is_terminal_state s
    else text_eq (test_state_to_string s) state

-- A count of the result, if there is one, and of the status otherwise.
abbrev pub counted : TestRecord → (TestResult → ℕ) → (TestStatus → ℕ) → ℕ
counted r of_result of_status = if r.has_result then of_result r.result else of_status r.status

abbrev pub info_of : TestRecord → TestInfo
info_of r = record {
  test_id = r.request.id;
  name = r.request.name;
  state = r.status.state;
  spec_files = r.request.spec_files;
  tags = r.request.tags;
  priority = r.request.priority;
  progress = r.status.progress;
  submit_time = r.status.submit_time;
  start_time = r.status.start_time;
  end_time = r.status.end_time;
  total_scenarios = counted r (λ x. x.total_scenarios) (λ x. x.total_scenarios);
  passed_scenarios = counted r (λ x. x.passed_scenarios) (λ x. x.passed_scenarios);
  failed_scenarios = counted r (λ x. x.failed_scenarios) (λ x. x.failed_scenarios);
  skipped_scenarios = counted r (λ x. x.skipped_scenarios) (λ x. x.skipped_scenarios);
  duration = counted r (λ x. x.total_duration) (λ x. 0);
}

module _ (records : Map TestRecord) (state : Text) (limit offset : ℕ) where
  -- The loop of `list` over the reversed order, with the number skipped and what is collected.
  unfoldable pub list_loop : List Text → ℕ → List TestInfo → List TestInfo
  list_loop [] skipped out = out
  list_loop (id ∷ ids) skipped out = elim (find id records) [
    | none ↦ list_loop ids skipped out
    | some r ↦ elim (list_selects state r.status.state) [
      | false ↦ list_loop ids skipped out
      | true ↦ elim (ltb skipped offset) [
        | true ↦ list_loop ids (skipped + 1) out
        | false ↦ elim (leb limit (length out)) [
          | true ↦ out
          | false ↦ list_loop ids skipped (out ++ (info_of r ∷ []))
        ]
      ]
    ]
  ]

abbrev pub list : Engine → Text → ℕ → ℕ → List TestInfo
list e state limit offset = list_loop e.records state limit offset (reverse e.order) 0 []

-- How many records have a state with the property.
unfoldable pub count_records : (TestState → Bool) → Map TestRecord → ℕ
count_records p [] = 0
count_records p ((id, r) ∷ records) =
    let rest = count_records p records in if p r.status.state then suc rest else rest

unfoldable pub count : Engine → Text → ℕ
count e state =
    if is_empty state
    then length e.records
    else count_records (λ s. text_eq (test_state_to_string s) state) e.records

abbrev pub stats : Engine → EngineStats
stats e = record (e.stats) {
  queued = count_records (λ s. state_eq s queued) e.records;
  running = count_records (λ s. state_eq s running) e.records;
}

unfoldable pub has_active : Map TestRecord → Bool
has_active [] = false
has_active ((id, r) ∷ records) =
    let rest = has_active records in if is_active_state r.status.state then true else rest

abbrev pub has_active_tests : Engine → Bool
has_active_tests e = has_active e.records

-- `std::sort` and `std::unique`, by insertion.
insert_unique : Text → List Text → List Text
insert_unique t [] = t ∷ []
insert_unique t (u ∷ us) =
    if text_eq t u then u ∷ us else if text_lt t u then t ∷ u ∷ us else u ∷ insert_unique t us

sort_unique : List Text → List Text
sort_unique [] = []
sort_unique (t ∷ ts) = insert_unique t (sort_unique ts)

unfoldable pub record_spec_files : TestRecord → List Text
unfolding sort_unique insert_unique
record_spec_files r =
    let named =
      if r.has_result
      then keep (λ f. not (is_empty f))
          (map (λ (s : SpecResult). s.spec_file) r.result.spec_results)
      else [] in
    let files = if is_empty named then r.resolved_specs else named in
    sort_unique (if is_empty files then r.request.spec_files else files)

abbrev pub trend_run_from : TestRecord → TrendRun
trend_run_from r = record {
  test_id = r.request.id;
  name = r.request.name;
  state = r.status.state;
  end_time = if r.status.end_time == 0 then r.status.submit_time else r.status.end_time;
  duration = counted r (λ x. x.total_duration) (λ x. 0);
  total_scenarios = counted r (λ x. x.total_scenarios) (λ x. x.total_scenarios);
  passed_scenarios = counted r (λ x. x.passed_scenarios) (λ x. x.passed_scenarios);
  failed_scenarios = counted r (λ x. x.failed_scenarios) (λ x. x.failed_scenarios);
  skipped_scenarios = counted r (λ x. x.skipped_scenarios) (λ x. x.skipped_scenarios);
  spec_files = record_spec_files r;
}

-- A record that trends and comparisons use.
abbrev pub is_comparable : TestRecord → Bool
is_comparable r =
    r.has_result && (is_terminal_state r.status.state && not (state_eq r.status.state cancelled))

unfoldable pub trend_runs_of : Map TestRecord → List Text → List TrendRun
trend_runs_of records [] = []
trend_runs_of records (id ∷ ids) =
    let rest = trend_runs_of records ids in
    elim (find id records) [
      | none ↦ rest
      | some r ↦ if is_comparable r then trend_run_from r ∷ rest else rest
    ]

abbrev pub trend_runs : Engine → List TrendRun
trend_runs e = trend_runs_of e.records e.order

unfoldable pub spec_sets_overlap : List Text → List Text → Bool
spec_sets_overlap a b = if is_empty a || is_empty b then true else any (λ x. mem_text x b) a

-- Whether the record of `id` may be the baseline of `current`.
unfoldable pub is_baseline : Map TestRecord → Text → List Text → Text → Bool
is_baseline records current specs id =
    if text_eq id current then false else elim (find id records) [
      | none ↦ false
      | some r ↦ is_comparable r && spec_sets_overlap specs (record_spec_files r)
    ]

unfoldable pub find_baseline : Map TestRecord → Text → List Text → List Text → Option Text
find_baseline records current specs [] = none
find_baseline records current specs (id ∷ ids) =
    let rest = find_baseline records current specs ids in
    if is_baseline records current specs id then some id else rest

pub data Compared : Type 0 where
  comparison : TestComparison → Compared
  refused : Text → Compared

abbrev pub comparison_of : TestRecord → TestRecord → Bool → TestComparison
comparison_of current base auto = record {
  current_id = current.request.id;
  baseline_id = base.request.id;
  current_name = current.request.name;
  baseline_name = base.request.name;
  current_state = current.status.state;
  baseline_state = base.status.state;
  current_duration = current.result.total_duration;
  baseline_duration = base.result.total_duration;
  current_end = current.status.end_time;
  baseline_end = base.status.end_time;
  auto_baseline = auto;
  diffs = compare_scenarios base.result current.result;
}

-- The record of `id`, if it has a result.
unfoldable pub find_finished : Map TestRecord → Text → Option TestRecord
find_finished records id = elim (find id records) [
  | none ↦ none
  | some r ↦ if r.has_result then some r else none
]

abbrev pub no_previous : Compared
no_previous = refused (codes "No previous finished run sharing the same spec(s)")

-- The comparison with the most recent run that shares a specification.
unfoldable pub compare_auto : Engine → TestRecord → Text → Compared
compare_auto e current id =
    elim (find_baseline e.records id (record_spec_files current) (reverse e.order)) [
      | none ↦ no_previous
      | some base ↦ elim (find base e.records) [
        | none ↦ no_previous
        | some b ↦ comparison (comparison_of current b true)
      ]
    ]

unfoldable pub compare_tests : Engine → Text → Text → Compared
compare_tests e id base = elim (find_finished e.records id) [
  | none ↦ refused (codes "Test not found or not finished: " ++ id)
  | some current ↦
      if is_empty base then compare_auto e current id else elim (find_finished e.records base) [
        | none ↦ refused (codes "Baseline test not found or not finished: " ++ base)
        | some b ↦
            if text_eq base id
            then refused (codes "Cannot compare a test with itself")
            else comparison (comparison_of current b false)
      ]
]
