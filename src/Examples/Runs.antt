-- ===== src/Examples/Runs.antt =====
-- The engine.
use testhub.Base.{
  ◌↔◌, ◌+◌, Bool, not, length, ◌≤◌, All, ◌⊎◌, ℕ, zero, suc, ◌≡◌, ◌<◌, refl, inl, inr, arith, true,
  false, ◌&&◌, List, [], ◌∷◌, ◌++◌, none, some, Text, codes, keep, count, if◌then◌else◌, ◌==◌,
  text_eq, mem_text, Map, Bool-cases, text_eq_refl, find, insert, has, three_digits, find-insert,
}
use testhub.Model.{
  TestRequest, TestState, empty_request, empty_status, is_terminal_state, queued, running, passed,
}
use testhub.Queue
use testhub.Queue.{TestTask, TestQueue}
use testhub.StringUtil.{trim_start, trim_end}
use testhub.TagFilter.{all, combine, parse}
use testhub.Engine.{TestRecord, EngineStats, Engine, is_finished, empty_record}
use testhub.Engine.History.{clear_history, trim_history}
use testhub.Engine.History.Active.{IsActive, trim_history-active, trim_history-limit}
use testhub.Engine.History.Clear.{IsOver, clear_history-Cleared}
use testhub.Engine.Submit.{
  submit, submit_check, submit_insert, submit_enqueue, choose_id, new_record, accepted, fresh_id,
}
use testhub.Engine.Submit.Fresh.{IsAccepted, submit-IsAccepted, fresh_id-spins}
use testhub.Engine.Cancel.{cancel, cancelled_record}
use testhub.Engine.Cancel.Outcomes.{IsCancelled, cancel_waiting}

abbrev no_stamp : ℕ → Text
no_stamp n = codes "20260101-000000"

abbrev one_file : List Text → List Text × List Text
one_file files = ([], files)

abbrev no_stats : EngineStats
no_stats = record {
  completed = 0;
  passed = 0;
  failed = 0;
  cancelled = 0;
  errored = 0;
  total_scenarios = 0;
  passed_scenarios = 0;
  failed_scenarios = 0;
  skipped_scenarios = 0;
  total_duration = 0;
  queued = 0;
  running = 0;
}

abbrev start : Engine
start = record {
  records = [];
  order = [];
  cancel_flags = [];
  flags = λ i. false;
  next_flag = 0;
  queue = Queue.initial;
  stats = no_stats;
  files = [];
  store_enabled = true;
  history_limit = 1;
  events = [];
}

abbrev pub record_of : Text → TestState → TestRecord
record_of id s = record empty_record { status = record empty_status { test_id = id; state = s } }

-- A test that has passed, one that runs and one that waits.
abbrev pub busy : Engine
busy = record start {
  records =
      (codes "a", record_of (codes "a") passed)
      ∷ (codes "b", record_of (codes "b") running)
      ∷ (codes "c", record_of (codes "c") queued)
      ∷ [];
  order = codes "a" ∷ codes "b" ∷ codes "c" ∷ [];
  cancel_flags = (codes "b", 0) ∷ (codes "c", 1) ∷ [];
  next_flag = 2;
  queue = record Queue.initial {
    items =
        record { request = record empty_request { id = codes "c" }; submit_time = 0; sequence = 1 }
        ∷ [];
  };
}

abbrev one_run : Engine
one_run =
    (cancel (submit_insert start (codes "a") (record_of (codes "a") running)) (codes "a") true 3).0

limit_example :
    (length (trim_history busy).order ≤ 1)
    ⊎ All
        (λ id. (r : TestRecord) × IsActive (trim_history busy).records id r)
        (trim_history busy).order
limit_example = trim_history-limit busy

active_example :
    (find (codes "b") (trim_history busy).records ≡ some (record_of (codes "b") running))
    × (mem_text (codes "b") (trim_history busy).order ≡ mem_text (codes "b") busy.order)
unfolding find text_eq is_terminal_state
active_example = trim_history-active busy (codes "b") (record_of (codes "b") running) (refl, refl)

clear_example :
    (done : Text → Bool)
    × ((x : Text) → (done x ≡ true) ↔ IsOver busy.records x)
    × ((clear_history busy).1 ≡ count done busy.order)
    × ((clear_history busy).0.order ≡ keep (λ x. not (done x)) busy.order)
    × ((x : Text)
        → find x (clear_history busy).0.records
          ≡ (if mem_text x busy.order && done x then none else find x busy.records))
    × ((x : Text)
        → find x (clear_history busy).0.cancel_flags
          ≡ (if mem_text x busy.order && done x then none else find x busy.cancel_flags))
unfolding text_eq
clear_example = clear_history-Cleared busy (refl, (refl, (refl, tt)))

cancel_waiting_example :
    ((cancel busy (codes "c") true 9).1 ≡ true)
    × IsCancelled (record_of (codes "c") queued) (codes "c") 9
        (find (codes "c") (cancel busy (codes "c") true 9).0.records)
    × (has (codes "c") (cancel busy (codes "c") true 9).0.cancel_flags ≡ false)
    × ((x : Text)
        → text_eq (codes "c") x ≡ false
        → find x (cancel busy (codes "c") true 9).0.records ≡ find x busy.records)
    × ((cancel busy (codes "c") true 9).0.stats.completed ≡ busy.stats.completed + 1)
    × ((cancel busy (codes "c") true 9).0.stats.cancelled ≡ busy.stats.cancelled + 1)
unfolding find is_terminal_state text_eq
cancel_waiting_example =
    cancel_waiting busy (codes "c") true 9 (record_of (codes "c") queued) refl refl refl

abbrev any_request : TestRequest
any_request = record empty_request { id = codes "d"; spec_files = codes "x.spec" ∷ [] }

abbrev submitted : Engine
submitted =
    submit_enqueue one_file no_stamp
      (submit_insert busy (codes "d") (new_record any_request (codes "d") (codes "x.spec" ∷ []) 4))
      any_request (codes "d") 1 4

submit_accepts : submit one_file no_stamp 0 busy any_request 4 ≡ accepted submitted (codes "d")
unfolding submit submit_check choose_id all combine parse find text_eq trim_end trim_start
submit_accepts = refl

submit_example : IsAccepted one_file no_stamp busy any_request 4 submitted (codes "d")
submit_example = submit-IsAccepted one_file no_stamp 0 busy any_request 4 submit_accepts

-- Every id that a second has.
abbrev id_at : ℕ → Text
id_at k = codes "test-" ++ (codes "20260101-000000" ++ (codes "-" ++ three_digits k))

unfoldable taken_ids : ℕ → Map TestRecord
taken_ids zero = []
taken_ids (suc n) = insert (id_at n) empty_record (taken_ids n)

taken_ids-has : (n k : ℕ) → k < n → has (id_at k) (taken_ids n) ≡ true
unfolding taken_ids
taken_ids-has zero k h = absurd (omega arith)
taken_ids-has (suc n) k h =
    let before : k < n → has (id_at k) (taken_ids n) ≡ true = taken_ids-has n k in
    last before (Bool-cases (k == n))
  where
    last :
        (k < n → has (id_at k) (taken_ids n) ≡ true)
        → ((k == n) ≡ true) ⊎ ((k == n) ≡ false)
        → has (id_at k) (insert (id_at n) empty_record (taken_ids n)) ≡ true
    last before (inl e) =
        let same : k ≡ n = ground arith in
        rw
          (find-insert (id_at k) (id_at n) empty_record (taken_ids n), same, text_eq_refl (id_at n))
          refl
    last before (inr e) =
        let there = before (ground arith) in
        ground (arith, find-insert (id_at k) (id_at n) empty_record (taken_ids n), there)

spins_example : fresh_id no_stamp 5000 (taken_ids 1000) Queue.initial 0 ≡ none
spins_example =
    fresh_id-spins no_stamp 5000 (taken_ids 1000) Queue.initial 0 (λ k. taken_ids-has 1000 k)
