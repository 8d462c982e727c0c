-- ===== src/Engine/Worker/Ends.antt =====
-- What a worker leaves of a test that it executes.
use testhub.Base.{◌≡◌, false, List, some, Text, text_eq, Map, find}
use testhub.Base.Int.{ℤ}
use testhub.Model.{TestStatus, TestResult}
use testhub.Engine.{TestRecord, Engine}
use testhub.Engine.Run.{World}
use testhub.Engine.Run.Specs.{LoadedSpec}
use testhub.Engine.Run.Suite.{execute}
use testhub.Engine.Worker.{load_all}

module _ (id : Text) where
  -- That the record of `id` is now `r`, and every other one is as it was.
  abbrev pub Writes : Map TestRecord → TestRecord → Map TestRecord → Type 0
  Writes old r new =
      (find id new ≡ some r) × ((x : Text) → text_eq id x ≡ false → find x new ≡ find x old)

module _ (w : World) (step_timeout : ℤ) (environment : Map Text)
    (load : Text → LoadedSpec × List Text) where
  -- The status and the result of the run of a record.
  abbrev pub outcome : TestRecord → TestStatus × TestResult
  outcome r =
      let (loaded, warnings) = load_all load r.resolved_specs in
      execute w step_timeout environment r loaded warnings
