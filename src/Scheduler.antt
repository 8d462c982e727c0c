-- ===== src/Scheduler.antt =====
-- src/engine/scheduler.h and scheduler.cpp, class Scheduler.
--
-- A call under the mutex is a function of the state. The callbacks are parameters over a state of
-- their own; `utc` is `gmtime_r` and `stamp` the text of the local time. A file holds the schedule
-- itself, not its JSON text.
pub mod Calls
pub mod Store
pub mod Load
pub mod Fire
pub mod Invariant
pub mod Tick
pub mod Reach
use testhub.Base.{
  ℕ, zero, suc, ◌+◌, ◌/◌, ◌%◌, ◌^◌, ltb, leb, ◌&&◌, ◌||◌, not, Bool, true, false, List, [], ◌∷◌,
  ◌++◌, ◌⊎◌, inl, inr, Option, none, some, is_empty, is_none, length, keep, count, if◌then◌else◌,
  Text, codes, text_eq, three_digits, Map, find, insert, erase, has,
}
use testhub.Base.Int.{ℤ, pos, negsuc, int_eq, int_lt}
use testhub.Model.{TestRequest}
use testhub.Engine.{is_safe_id}
use testhub.Cron
use testhub.Cron.{CronExpr, Tm, ok, fail, minute_ticks}

pub record Schedule : Type 0 where
  pub id : Text
  pub name : Text
  pub cron : Text
  pub enabled : Bool
  pub skip_if_running : Bool
  pub request : TestRequest
  pub created_at : ℕ
  pub updated_at : ℕ
  pub last_run_at : ℕ
  pub last_test_id : Text
  pub last_error : Text
  pub run_count : ℕ
  pub skip_count : ℕ
  pub last_fired_minute : ℤ

pub record Loaded : Type 0 where
  pub schedule : Schedule
  pub expr : CronExpr

-- What `publishEvent` is called with.
pub record Notice : Type 0 where
  pub type : Text
  pub test_id : Text
  pub content : Map Text

pub record Scheduler : Type 0 where
  pub items : Map Loaded
  pub order : List Text
  pub id_counter : ℕ
  pub ticks : ℕ
  pub fires : ℕ
  pub skips : ℕ
  pub errors : ℕ
  pub notices : List Notice
  pub files : Map Schedule
  -- `dir` is not empty.
  pub persistent : Bool
  pub enabled : Bool
  pub running : Bool
  pub interval_ms : ℤ

-- `configure`.
unfoldable pub configure : Scheduler → Bool → ℤ → Bool → Scheduler
configure q enabled interval_ms persistent = record q {
  enabled = enabled;
  interval_ms = if int_lt interval_ms (pos 50) then pos 50 else interval_ms;
  persistent = persistent;
}

abbrev pub epoch_minute : ℕ → ℕ
epoch_minute tp = tp / minute_ticks

-- `saveOne`; `written` says whether the file could be written and moved into place.
unfoldable pub save_one : Scheduler → Loaded → Bool → Scheduler
save_one q item written =
    if q.persistent && (is_safe_id item.schedule.id && written)
    then record q { files = insert item.schedule.id item.schedule q.files }
    else q

unfoldable pub delete_file : Scheduler → Text → Scheduler
delete_file q id =
    if q.persistent && is_safe_id id then record q { files = erase id q.files } else q

abbrev pub publish : Scheduler → Text → Text → Map Text → Scheduler
publish q type test_id content = record q {
  notices = q.notices ++ (record { type = type; test_id = test_id; content = content } ∷ []);
}

abbrev pub named : Schedule → Map Text → Map Text
named s content = insert (codes "schedule_id") s.id (insert (codes "name") s.name content)

abbrev pub get : Scheduler → Text → Option Schedule
get q id = elim (find id q.items) [ none ↦ none | some item ↦ some item.schedule ]

unfoldable pub list_from : Map Loaded → List Text → List Schedule
list_from items [] = []
list_from items (id ∷ ids) =
    let rest = list_from items ids in
    elim (find id items) [ none ↦ rest | some item ↦ item.schedule ∷ rest ]

abbrev pub list : Scheduler → List Schedule
list q = list_from q.items q.order

pub record SchedulerStats : Type 0 where
  pub enabled : Bool
  pub interval_ms : ℤ
  pub count : ℕ
  pub enabled_count : ℕ
  pub ticks : ℕ
  pub fires : ℕ
  pub skips : ℕ
  pub errors : ℕ

abbrev pub stats : Scheduler → SchedulerStats
stats q = record {
  enabled = q.enabled && q.running;
  interval_ms = q.interval_ms;
  count = length q.items;
  enabled_count = count (λ (e : Text × Loaded). e.1.schedule.enabled) q.items;
  ticks = q.ticks;
  fires = q.fires;
  skips = q.skips;
  errors = q.errors;
}
