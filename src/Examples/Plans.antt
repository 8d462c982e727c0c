-- ===== src/Examples/Plans.antt =====
-- Schedules. The callback of the examples counts the submissions, and its tests are over at once.
use testhub.Base.{
  ℕ, suc, ◌+◌, ◌*◌, find, text_eq, to_string, ◌≡◌, refl, true, false, [], ◌∷◌, some, inl, codes,
}
use testhub.Base.Int.{pos, negsuc}
use testhub.Model.{empty_request}
use testhub.Cron.{matches, matches_tm, minute_ticks}
use testhub.Scheduler.{Loaded, Scheduler}
use testhub.Scheduler.Calls.{Callbacks, fire_locked, tick, tick_one, tick_all, fire_item, is_due}
use testhub.Scheduler.Load.{load_all}
use testhub.Scheduler.Store.{remove}
use testhub.Scheduler.Tick.{total, tick_again}
use testhub.Scheduler.Invariant.{Valid}
use testhub.Scheduler.Reach.{here, next, loads, ticks, removes, Reach-Valid}
use testhub.Examples.Schedules.{calendar, hourly}

abbrev counting : Callbacks ℕ
counting = record {
  submit = some (λ n r. (suc n, inl (codes "test")));
  is_active = some (λ n id. false);
}

abbrev plan : Loaded
plan = record {
  schedule = record {
    id = codes "p";
    name = codes "nightly";
    cron = codes "@hourly";
    enabled = true;
    skip_if_running = true;
    request = empty_request;
    created_at = 0;
    updated_at = 0;
    last_run_at = 0;
    last_test_id = [];
    last_error = [];
    run_count = 0;
    skip_count = 0;
    last_fired_minute = negsuc 0;
  };
  expr = hourly;
}

abbrev one_plan : Scheduler
one_plan = record {
  items = (codes "p", plan) ∷ [];
  order = codes "p" ∷ [];
  id_counter = 0;
  ticks = 0;
  fires = 0;
  skips = 0;
  errors = 0;
  notices = [];
  files = [];
  persistent = false;
  enabled = true;
  running = true;
  interval_ms = pos 1000;
}

-- At a full hour the plan is due, and a submission is made.
tick_fires : (tick counting calendar 0 one_plan (60 * minute_ticks) true).0 ≡ 1
unfolding tick tick_all tick_one fire_item fire_locked is_due matches matches_tm find text_eq
    to_string
tick_fires = refl

again_example :
    let (w1, q1, fired) = tick counting calendar 0 one_plan (60 * minute_ticks) true in
    (total q1 ≡ total one_plan + fired)
    × (tick counting calendar w1 q1 (60 * minute_ticks + 7) true
        ≡ (w1, record q1 { ticks = suc q1.ticks }, 0))
again_example =
    tick_again counting calendar 0 one_plan (60 * minute_ticks) (60 * minute_ticks + 7) true true
      refl refl

abbrev no_plans : Scheduler
no_plans = record one_plan { items = []; order = []; persistent = true }

abbrev after_load : Scheduler
after_load = (tick counting calendar 0 (load_all no_plans (plan ∷ [])) 90 true).1

plans_reach_example : Valid (remove after_load (codes "p")).0
unfolding find
plans_reach_example =
    Reach-Valid
      (next
        (next (next here (loads no_plans (plan ∷ []) (refl, tt)))
          (ticks (load_all no_plans (plan ∷ [])) ℕ counting calendar 0 90 true))
        (removes after_load (codes "p")))
      (record { distinct = tt; places = λ x. refl; keyed = λ x l e. cc })
