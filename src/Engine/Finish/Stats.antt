-- ===== src/Engine/Finish/Stats.antt =====
-- The statistics: every completed test is counted under one outcome.
use mathlib.Core.Path.{subst}
use testhub.Base.{
  ℕ, suc, ◌+◌, ◌≡◌, refl, sym, ◌∙◌, arith, inl, inr, Bool, true, false, List, [], ◌∷◌, Text, find,
  if◌then◌else◌, Bool-cases, Option-cases, or_else,
}
use testhub.Model.{
  TestState, passed, failed, skipped, cancelled, TestStatus, TestResult, Event, is_terminal_state,
}
use testhub.Engine.{
  empty_record, TestRecord, Engine, EngineStats, count_state, count_final, persist, store_save,
  store_remove, store_remove_all,
}
use testhub.Engine.History.{trim_history, put_held}
use testhub.Engine.Cancel.{cancel, cancel_found, cancel_running, cancelled_record, finish_cancelled}
use testhub.Engine.Finish.{
  finish, load_record, load_records, count_loaded, load_found, load_history,
}

abbrev pub IsBalanced : EngineStats → Type 0
IsBalanced s = s.completed ≡ s.passed + s.failed + s.cancelled + s.errored

count_state-outcomes :
    (f : TestState) (s : EngineStats)
    → s.completed ≡ suc (s.passed + s.failed + s.cancelled + s.errored)
    → IsBalanced (count_state f s)
unfolding count_state
count_state-outcomes passed s h = omega arith
count_state-outcomes skipped s h = omega arith
count_state-outcomes failed s h = omega arith
count_state-outcomes cancelled s h = omega arith
count_state-outcomes _ s h = omega arith

count_final-IsBalanced :
    (s : EngineStats) (r : TestResult) → IsBalanced s → IsBalanced (count_final s r)
unfolding count_final
count_final-IsBalanced s r h = count_state-outcomes r.final_state _ (omega arith)

persist-stats : (e : Engine) (r : TestRecord) (w : Bool) → (persist e r w).stats ≡ e.stats
unfolding persist store_save
persist-stats e r w = ground arith

store_remove-stats : (e : Engine) (id : Text) → (store_remove e id).stats ≡ e.stats
unfolding store_remove
store_remove-stats e id = ground arith

store_remove_all-stats : (e : Engine) (ids : List Text) → (store_remove_all e ids).stats ≡ e.stats
unfolding store_remove_all
store_remove_all-stats e [] = refl
store_remove_all-stats e (id ∷ ids) =
    store_remove_all-stats (store_remove e id) ids ∙ store_remove-stats e id

finish-IsBalanced :
    (e : Engine) (id : Text) (s : TestStatus) (r : TestResult) (w : Bool) (event : Event)
    → IsBalanced e.stats
    → IsBalanced (finish e id s r w event).stats
unfolding finish
finish-IsBalanced e id s r w event h =
    let r' = record (or_else (find id e.records) empty_record) {
      status = s;
      result = r;
      has_result = true;
    } in
    count_final-IsBalanced _ r (subst IsBalanced (sym (persist-stats e r' w)) h)

finish_cancelled-IsBalanced :
    (e : Engine) (id : Text) (r : TestRecord) (w : Bool) (now : ℕ)
    → IsBalanced e.stats
    → IsBalanced (finish_cancelled e id r w now).stats
unfolding finish_cancelled
finish_cancelled-IsBalanced e id r w now h =
    let h' = subst IsBalanced (sym (persist-stats e r w)) h in omega arith

cancel_running-stats :
    (e : Engine) (id : Text) (now : ℕ) → (cancel_running e id now).0.stats ≡ e.stats
unfolding cancel_running
cancel_running-stats e id now = elim (Option-cases (find id e.cancel_flags)) [
  | inl n ↦ rw (n, cancel_running) refl
  | inr (at, n) ↦ rw (n, cancel_running) refl
]

cancel_found-IsBalanced :
    (e : Engine) (id : Text) (r : TestRecord) (was_queued w : Bool) (now : ℕ)
    → IsBalanced e.stats
    → IsBalanced (cancel_found e id r was_queued w now).0.stats
unfolding cancel_found
cancel_found-IsBalanced e id r was_queued w now h =
    elim (Bool-cases (is_terminal_state r.status.state)) [
      | inl over ↦ rw over h
      | inr going ↦ elim (Bool-cases was_queued) [
        | inl q ↦
            rw (going, q) (finish_cancelled-IsBalanced e id (cancelled_record r id now) w now h)
        | inr q ↦ rw (going, q) (subst IsBalanced (sym (cancel_running-stats e id now)) h)
      ]
    ]

cancel-IsBalanced :
    (e : Engine) (id : Text) (w : Bool) (now : ℕ)
    → IsBalanced e.stats
    → IsBalanced (cancel e id w now).0.stats
unfolding cancel
cancel-IsBalanced e id w now h = elim (Option-cases (find id e.records)) [
  | inl n ↦ rw (n, cancel) h
  | inr (r, n) ↦ rw (n, cancel) (cancel_found-IsBalanced _ id r _ w now h)
]

load_record-stats : (e : Engine) (r : TestRecord) → (load_record e r).stats ≡ e.stats
unfolding load_record
load_record-stats e r = ground arith

load_records-stats : (e : Engine) (rs : List TestRecord) → (load_records e rs).stats ≡ e.stats
unfolding load_records
load_records-stats e [] = refl
load_records-stats e (r ∷ rs) = load_records-stats (load_record e r) rs ∙ load_record-stats e r

count_loaded-IsBalanced :
    (s : EngineStats) (rs : List TestRecord) → IsBalanced s → IsBalanced (count_loaded s rs)
unfolding count_loaded
count_loaded-IsBalanced s [] h = h
count_loaded-IsBalanced s (r ∷ rs) h = elim (Bool-cases r.has_result) [
  | inl e ↦
      rw e
        (count_loaded-IsBalanced (count_final s r.result) rs (count_final-IsBalanced s r.result h))
  | inr e ↦ rw e (count_loaded-IsBalanced s rs h)
]

trim_history-stats : (e : Engine) → (trim_history e).stats ≡ e.stats
unfolding trim_history
trim_history-stats e = store_remove_all-stats (put_held e _) _

load_history-IsBalanced :
    (e : Engine) (loaded : Bool) (found : List TestRecord)
    → IsBalanced e.stats
    → IsBalanced (load_history e loaded found).0.stats
unfolding load_history
load_history-IsBalanced e true found h = h
load_history-IsBalanced e false found h = by_store e.store_enabled
  where
    by_store :
        (b : Bool)
        → let o : Engine × Bool = if b then (load_found e found, true) else (e, true) in
          IsBalanced o.0.stats
    by_store false = h
    by_store true =
        subst IsBalanced (sym (trim_history-stats _))
          (count_loaded-IsBalanced _ found (subst IsBalanced (sym (load_records-stats e found)) h))

-- The end of a run, a cancellation and the loading of the history keep the statistics in balance: the
-- completed tests are those that passed, failed, were cancelled and were in error.
pub outcomes-IsBalanced :
    (e : Engine)
    → IsBalanced e.stats
    → ((id : Text) (s : TestStatus) (r : TestResult) (w : Bool) (event : Event)
        → IsBalanced (finish e id s r w event).stats)
      × ((id : Text) (w : Bool) (now : ℕ) → IsBalanced (cancel e id w now).0.stats)
      × ((loaded : Bool) (found : List TestRecord)
          → IsBalanced (load_history e loaded found).0.stats)
outcomes-IsBalanced e h = (
  λ id s r w event. finish-IsBalanced e id s r w event h,
  λ id w now. cancel-IsBalanced e id w now h,
  λ loaded found. load_history-IsBalanced e loaded found h,
)
