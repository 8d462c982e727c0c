-- ===== src/Examples/History.antt =====
-- The queries, and the trends.
use testhub.Base.{
  ◌≡◌, ◌||◌, refl, true, List, [], ◌∷◌, map, reverse, take, drop, some, Text, codes, text_eq,
  mem_text, IsDistinct, find,
}
use testhub.Model.{
  state_eq, is_terminal_state, TestState, passed, failed, TestResult, empty_result,
  empty_spec_result, empty_scenario_result,
}
use testhub.Engine.{TestRecord, Engine, empty_record}
use testhub.Engine.Queries.{
  list, info_of, compare_tests, comparison, comparison_of, find_finished, compare_auto,
  find_baseline, spec_sets_overlap, record_spec_files, is_baseline,
}
use testhub.Engine.Queries.Listing.{selected, list-slice}
use testhub.Trends.{TrendRun, compare_scenarios, diff_of, TestComparison}
use testhub.Trends.Diffs.{scenario_keys, index_of, compare_scenarios-keys}
use testhub.Examples.Runs.{busy}

list_example :
    list busy (codes "active") 1 1
    ≡ map info_of (take 1 (drop 1 (selected busy.records (codes "active") (reverse busy.order))))
list_example = list-slice busy (codes "active") 1 1

abbrev result_of : TestState → TestResult
result_of s = record empty_result {
  spec_results =
      record empty_spec_result {
        spec_file = codes "x.spec";
        scenario_results =
            record empty_scenario_result { scenario_name = codes "s"; state = s } ∷ [];
      }
      ∷ [];
}

abbrev finished : Text → TestState → TestRecord
finished id s = record empty_record {
  status = record (empty_record.status) { test_id = id; state = s };
  result = result_of s;
  has_result = true;
}

abbrev two_runs : Engine
two_runs = record busy {
  records =
      (codes "a", finished (codes "a") passed) ∷ (codes "b", finished (codes "b") failed) ∷ [];
  order = codes "a" ∷ codes "b" ∷ [];
}

abbrev auto_comparison : TestComparison
auto_comparison = comparison_of (finished (codes "b") failed) (finished (codes "a") passed) true

b_finished : find_finished two_runs.records (codes "b") ≡ some (finished (codes "b") failed)
unfolding find_finished find text_eq
b_finished = refl

b_compared : compare_tests two_runs (codes "b") [] ≡ comparison auto_comparison
unfolding find_finished find text_eq compare_tests compare_auto find_baseline is_baseline
    is_terminal_state state_eq spec_sets_overlap record_spec_files
b_compared = refl

keys_example :
    (ks : List Text) × IsDistinct ks
    × ((k : Text)
        → mem_text k ks ≡ (
            mem_text k (scenario_keys (result_of passed))
            || mem_text k (scenario_keys (result_of failed))))
    × (compare_scenarios (result_of passed) (result_of failed)
        ≡ map
            (λ k.
              diff_of (find k (index_of (result_of passed))) (find k (index_of (result_of failed))))
            ks)
keys_example = compare_scenarios-keys (result_of passed) (result_of failed)

abbrev one_trend : TrendRun
one_trend = record {
  test_id = codes "a";
  name = [];
  state = passed;
  end_time = 1;
  duration = 1;
  total_scenarios = 1;
  passed_scenarios = 1;
  failed_scenarios = 0;
  skipped_scenarios = 0;
  spec_files = codes "x.spec" ∷ codes "x.spec" ∷ [];
}
