-- ===== src/Scheduler/Reach.antt =====
-- Whatever calls are made, in whatever order, the scheduler's bookkeeping holds.
use testhub.Base.{
  ℕ, suc, ◌≡◌, refl, ap, ◌∙◌, arith, Bool, true, false, ◌||◌, Option, some, ◌⊎◌, List, [], ◌∷◌, map,
  none, find, Text, text_eq, text_eq_iff, mem_text, IsDistinct, has, find-insert, if◌then◌else◌,
}
use testhub.Base.Int.{ℤ}
use testhub.Cron.{Tm}
use testhub.Scheduler.{Schedule, Loaded, Scheduler, configure}
use testhub.Scheduler.Calls.{Callbacks, tick, fire_now}
use testhub.Scheduler.Store.{create, update, remove}
use testhub.Scheduler.Load.{load_items, insert_by, sort_by, created, load_all}
use testhub.Scheduler.Invariant.{
  IsValid, Valid, add-IsValid, remove-Valid, tick_all-Valid, fire_now-Valid, create-Valid,
  update-Valid,
}

mem_text-insert_by :
    (key : Text → ℕ) (id : Text) (xs : List Text) (x : Text)
    → mem_text x (insert_by key id xs) ≡ (text_eq id x || mem_text x xs)
unfolding insert_by
mem_text-insert_by key id [] x = refl
mem_text-insert_by key id (y ∷ xs) x = ground (arith, mem_text-insert_by key id xs x)

mem_text-sort_by :
    (key : Text → ℕ) (xs : List Text) (x : Text) → mem_text x (sort_by key xs) ≡ mem_text x xs
unfolding sort_by
mem_text-sort_by key [] x = refl
mem_text-sort_by key (y ∷ xs) x =
    mem_text-insert_by key y (sort_by key xs) x
    ∙ ap (λ b. text_eq y x || b) (mem_text-sort_by key xs x)

IsDistinct-insert_by :
    (key : Text → ℕ) (id : Text) (xs : List Text)
    → mem_text id xs ≡ false
    → IsDistinct xs
    → IsDistinct (insert_by key id xs)
unfolding insert_by
IsDistinct-insert_by key id [] n d = (refl, tt)
IsDistinct-insert_by key id (y ∷ xs) n d = ground (
  arith,
  mem_text-insert_by key id xs y,
  IsDistinct-insert_by key id xs,
  text_eq_iff y id,
  text_eq_iff id y,
)

IsDistinct-sort_by : (key : Text → ℕ) (xs : List Text) → IsDistinct xs → IsDistinct (sort_by key xs)
unfolding sort_by
IsDistinct-sort_by key [] d = tt
IsDistinct-sort_by key (y ∷ xs) d =
    IsDistinct-insert_by key y (sort_by key xs) (mem_text-sort_by key xs y ∙ d.0)
      (IsDistinct-sort_by key xs d.1)

abbrev pub ids_of : List Loaded → List Text
ids_of ls = map (λ (l : Loaded). l.schedule.id) ls

load_items-Valid :
    (ls : List Loaded) (q : Scheduler)
    → Valid q
    → IsDistinct (ids_of ls)
    → ((x : Text) → mem_text x (ids_of ls) ≡ true → has x q.items ≡ false)
    → Valid (load_items q ls)
unfolding load_items
load_items-Valid [] q v d fresh = v
load_items-Valid (l ∷ ls) q v d fresh =
    let id = l.schedule.id in
    load_items-Valid ls _ (add-IsValid id l v (fresh id (ground (arith, text_eq_iff id id))) refl)
      d.1 (λ x m. ground (arith, fresh x, find-insert x id l q.items, text_eq_iff id x, d.0))

empty-IsValid : IsValid [] []
unfolding find
empty-IsValid = record { distinct = tt; places = λ x. refl; keyed = λ x l e. cc }

load_all-Valid :
    (q : Scheduler) (found : List Loaded) → IsDistinct (ids_of found) → Valid (load_all q found)
unfolding load_all
load_all-Valid q found d = by_store q.persistent
  where
    start : Scheduler
    start = record q { items = []; order = [] }

    l : Scheduler
    l = load_items start found

    loaded : Valid l
    loaded = load_items-Valid found start empty-IsValid d (λ x m. unfold find in refl)

    by_store :
        (p : Bool)
        → let r : Scheduler =
            if p then record l { order = sort_by (created l.items) l.order } else start in
          Valid r
    by_store false = empty-IsValid
    by_store true = record {
      distinct = IsDistinct-sort_by (created l.items) l.order loaded.distinct;
      places = λ x. mem_text-sort_by (created l.items) l.order x ∙ loaded.places x;
      keyed = loaded.keyed;
    }

-- A call of the scheduler, by any thread. The files that a load reads have different ids.
pub data Step : Scheduler → Scheduler → Type 1 where
  configures :
      (q : Scheduler) (enabled : Bool) (interval_ms : ℤ) (persistent : Bool)
      → Step q (configure q enabled interval_ms persistent)
  loads :
      (q : Scheduler) (found : List Loaded) → IsDistinct (ids_of found) → Step q (load_all q found)
  creates :
      (q q' : Scheduler) (stamp : ℕ → Text) (fuel : ℕ) (given : Schedule) (now : ℕ) (written : Bool)
      (r : Schedule ⊎ Text)
      → create stamp fuel q given now written ≡ some (q', r)
      → Step q q'
  updates :
      (q : Scheduler) (id : Text) (patch : Schedule) (has_request : Bool) (now : ℕ) (written : Bool)
      → Step q (update q id patch has_request now written).0
  removes : (q : Scheduler) (id : Text) → Step q (remove q id).0
  ticks :
      (q : Scheduler) (S : Type 0) (calls : Callbacks S) (utc : ℕ → Option Tm) (w : S) (now : ℕ)
      (written : Bool)
      → Step q (tick calls utc w q now written).1
  fires :
      (q : Scheduler) (S : Type 0) (calls : Callbacks S) (w : S) (id : Text) (now : ℕ)
      (written : Bool)
      → Step q (fire_now calls w q id now written).1

pub data Reach (q : Scheduler) : Scheduler → Type 1 where
  here : Reach q q
  next : {p r : Scheduler} → Reach q p → Step p r → Reach q r

Step-Valid : {q q' : Scheduler} → Step q q' → Valid q → Valid q'
unfolding configure tick
Step-Valid (configures q enabled interval_ms persistent) v = record {
  distinct = v.distinct;
  places = v.places;
  keyed = v.keyed;
}
Step-Valid (loads q found d) v = load_all-Valid q found d
Step-Valid (creates q q' stamp fuel given now written r h) v =
    create-Valid q v stamp fuel given now written h
Step-Valid (updates q id patch has_request now written) v =
    update-Valid q v id patch has_request now written
Step-Valid (removes q id) v = remove-Valid q id v
Step-Valid (ticks q S calls utc w now written) v =
    tick_all-Valid calls utc now written q.order w (record q { ticks = suc q.ticks }) 0
      (record { distinct = v.distinct; places = v.places; keyed = v.keyed })
Step-Valid (fires q S calls w id now written) v =
    fire_now-Valid calls (λ t. none) now written w q id v

-- Whatever calls are made, and in whatever order, if the files that a load reads have different ids:
-- where the order lists exactly the schedules there are, each once, and each schedule stands under
-- its own id, this stays so.
pub Reach-Valid : {q q' : Scheduler} → Reach q q' → Valid q → Valid q'
Reach-Valid here v = v
Reach-Valid (next r s) v = Step-Valid s (Reach-Valid r v)
