-- ===== src/Engine/Worker.antt =====
-- src/engine/execution_engine.cpp, execute as a worker calls it: the record is read, the test is
-- run on one stream, its status is copied on the way, and the end is written.
--
-- No other thread writes this test's record meanwhile, but its cancel flag may be set at any time,
-- as the World says. `load` is `SpecRepository::load`, with the parser's warnings.

pub mod Ends
use testhub.Base
use testhub.Base.{ℕ, suc, Bool, List, [], ◌∷◌, ◌++◌, none, some, Text, Map}
use testhub.Base.Int.{ℤ}
use testhub.Model.{TestStatus, SpecResult}
use testhub.Engine.{TestRecord, Engine}
use testhub.Engine.Cancel.{copy_status}
use testhub.Engine.Finish.{begin, finish, completed_event}
use testhub.Engine.Run.{World}
use testhub.Engine.Run.Specs.{LoadedSpec, is_spec_passed, is_spec_failed}
use testhub.Engine.Run.Suite.{run_loaded, execute}

-- What the calls of `updateStatus` in a run leave.
unfoldable pub copy_all : Engine → Text → List TestStatus → Engine
copy_all e id [] = e
copy_all e id (s ∷ ss) = copy_all (copy_status e id s) id ss

unfoldable pub load_all : (Text → LoadedSpec × List Text) → List Text → List LoadedSpec × List Text
load_all load [] = ([], [])
load_all load (p ∷ ps) =
    let (l, warned) = load p in let (ls, more) = load_all load ps in (l ∷ ls, warned ++ more)

module _ (w : World) (step_timeout : ℤ) (environment : Map Text)
    (load : Text → LoadedSpec × List Text) where
  -- From the record to the end; `written` says whether the file could be written.
  unfoldable pub run_record : Engine → Text → TestRecord → Bool → Engine
  run_record e id r written =
      let (loaded, warnings) = load_all load r.resolved_specs in
      let (c, specs, ended) = run_loaded w step_timeout environment r loaded warnings in
      let (s, result) = execute w step_timeout environment r loaded warnings in
      let copied = copy_all e id c.snapshots in
      finish (record copied { events = copied.events ++ c.events }) id s result written
        (completed_event w.show_duration id r.request.name result
          (Base.count (λ (x : SpecResult). is_spec_passed x.state) specs)
          (Base.count (λ (x : SpecResult). is_spec_failed x.state) specs) (w.now (suc c.tick)))

  unfoldable pub run_task : Engine → Text → Bool → Engine
  run_task e id written =
      let (e1, task) = begin e id in elim task [ none ↦ e1 | some t ↦ run_record e1 id t.0 written ]
