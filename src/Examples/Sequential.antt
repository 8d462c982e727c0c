-- ===== src/Examples/Sequential.antt =====
-- The run of a test on one stream.
use testhub.Base.Int.{pos}
use testhub.Model.{TestResult, failed, state_eq, empty_request}
use testhub.Engine.{TestRecord, empty_record}
use testhub.Engine.Run.{
  look, check_timeout, should_stop, is_over, publish, run_hook, update_status,
  apply_scenario_outcome, count_scenario, progress_of, add_tags, scenario_selected,
  effective_step_retry, retry_from,
}
use testhub.Engine.Run.Steps.{
  execute_step, finish_step, publish_started, publish_completed, retry_loop, attempt, can_retry,
}
use testhub.Engine.Run.Scenarios.{execute_scenario, run_steps, note_stop, settle}
use testhub.Engine.Run.Specs.{
  LoadedSpec, must_stop, visit_scenario, visit_all, visit_rows, execute_spec,
}
use testhub.Engine.Run.Suite.{
  note_hook, skip_spec, run_spec, enter_spec, leave_spec, run_specs, execute_sequential, planned,
  run_context, run_loaded, execute,
}
use testhub.Examples.Suite.{world_of, one_spec}
use testhub.Model.{queued, running}
use testhub.Engine.{Engine}
use testhub.Examples.Runs.{busy, record_of}
use testhub.Base.{ℕ, Text, ◌≡◌, refl, true, [], ◌∷◌, some, codes}
use testhub.StringUtil.{trim_start, trim_end}
use testhub.TagFilter.{parse, matches, all, combine}

-- With `fail_fast`, the specifications behind the first failure are skipped as a whole, and their
-- scenarios enter the total but none of the other counts.
abbrev failing : TestRecord
failing = record empty_record {
  request = record empty_request { id = codes "a"; fail_fast = true };
}

abbrev spec_named : Text → LoadedSpec
spec_named path = record { path = path; specification = some one_spec; errors = [] }

abbrev counts_of : TestResult → ℕ × ℕ × ℕ × ℕ
counts_of r = (r.total_scenarios, r.passed_scenarios, r.failed_scenarios, r.skipped_scenarios)

fail_fast_counts :
    counts_of
      (execute
        (world_of failed)
        (pos 500)
        []
        failing
        (spec_named (codes "x.spec") ∷ spec_named (codes "y.spec") ∷ [])
        []).1
    ≡ (2, 0, 1, 0)
unfolding all combine parse trim_start trim_end matches look check_timeout should_stop is_over
    publish run_hook update_status apply_scenario_outcome count_scenario progress_of add_tags
    scenario_selected effective_step_retry retry_from execute_step finish_step publish_started
    publish_completed retry_loop attempt can_retry execute_scenario run_steps note_stop settle
    must_stop visit_scenario visit_all visit_rows note_hook skip_spec run_spec enter_spec leave_spec
    run_specs execute_sequential planned run_context run_loaded execute execute_spec state_eq
fail_fast_counts = refl

abbrev waiting : TestRecord
waiting = record (record_of (codes "c") queued) { resolved_specs = codes "x.spec" ∷ [] }

abbrev one_waits : Engine
one_waits = record busy {
  records = (codes "b", record_of (codes "b") running) ∷ (codes "c", waiting) ∷ [];
  order = codes "b" ∷ codes "c" ∷ [];
}
