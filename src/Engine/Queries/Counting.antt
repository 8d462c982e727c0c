-- ===== src/Engine/Queries/Counting.antt =====
-- What is counted.
use testhub.Base.{
  ℕ, suc, ◌+◌, ◌≡◌, refl, arith, [], ◌∷◌, length, if◌then◌else◌, Text, codes, text_eq, Map, ltb,
}
use testhub.Model.{
  TestState, queued, running, passed, failed, skipped, cancelled, test_error, state_eq,
  test_state_to_string,
}
use testhub.Engine.{TestRecord, Engine}
use testhub.Engine.Queries.{count_records, count, stats, has_active, has_active_tests}

has_active-count_records :
    (records : Map TestRecord)
    → has_active records
      ≡ ltb 0 (
          count_records (λ s. state_eq s queued) records
          + count_records (λ s. state_eq s running) records)
unfolding has_active count_records state_eq
has_active-count_records [] = refl
has_active-count_records ((id, r) ∷ records) = ground (arith, has_active-count_records records)

-- There are active tests exactly if the statistics count one as queued or as running.
has_active_tests-stats :
    (e : Engine) → has_active_tests e ≡ ltb 0 ((stats e).queued + (stats e).running)
has_active_tests-stats e = has_active-count_records e.records

-- How many records have the state of this name.
abbrev named : Text → Map TestRecord → ℕ
named name = count_records λ s. text_eq (test_state_to_string s) name

count_records-sum :
    (records : Map TestRecord)
    → named (codes "queued") records
        + named (codes "running") records
        + named (codes "passed") records
        + named (codes "failed") records
        + named (codes "skipped") records
        + named (codes "cancelled") records
        + named (codes "error") records
      ≡ length records
unfolding count_records text_eq test_state_to_string
count_records-sum [] = refl
count_records-sum ((id, r) ∷ records) = by_state r.status.state (count_records-sum records)
  where
    one : TestState → Text → ℕ → ℕ
    one s name n = if text_eq (test_state_to_string s) name then suc n else n

    by_state :
        (s : TestState)
        → named (codes "queued") records
            + named (codes "running") records
            + named (codes "passed") records
            + named (codes "failed") records
            + named (codes "skipped") records
            + named (codes "cancelled") records
            + named (codes "error") records
          ≡ length records
        → one s (codes "queued") (named (codes "queued") records)
            + one s (codes "running") (named (codes "running") records)
            + one s (codes "passed") (named (codes "passed") records)
            + one s (codes "failed") (named (codes "failed") records)
            + one s (codes "skipped") (named (codes "skipped") records)
            + one s (codes "cancelled") (named (codes "cancelled") records)
            + one s (codes "error") (named (codes "error") records)
          ≡ suc (length records)
    by_state queued h = omega arith
    by_state running h = omega arith
    by_state passed h = omega arith
    by_state failed h = omega arith
    by_state skipped h = omega arith
    by_state cancelled h = omega arith
    by_state test_error h = omega arith

-- The counts of the seven states add up to the number of all records.
count-sum :
    (e : Engine)
    → count e (codes "queued")
        + count e (codes "running")
        + count e (codes "passed")
        + count e (codes "failed")
        + count e (codes "skipped")
        + count e (codes "cancelled")
        + count e (codes "error")
      ≡ count e []
unfolding count
count-sum e = count_records-sum e.records
