-- ===== src/Scheduler/Load.antt =====
-- src/engine/scheduler.cpp: loadAll.
use testhub.Base.{ℕ, ltb, List, [], ◌∷◌, ◌++◌, none, some, if◌then◌else◌, Text, Map, find, insert}
use testhub.Scheduler.{Loaded, Scheduler}

-- `loadAll`, from what the files of the directory hold, one after the other.
unfoldable pub load_items : Scheduler → List Loaded → Scheduler
load_items q [] = q
load_items q (l ∷ ls) =
    let id = l.schedule.id in
    load_items (record q { items = insert id l q.items; order = q.order ++ (id ∷ []) }) ls

abbrev pub created : Map Loaded → Text → ℕ
created items id = elim (find id items) [ none ↦ 0 | some l ↦ l.schedule.created_at ]

-- `std::sort` by the time of creation.
unfoldable pub insert_by : (Text → ℕ) → Text → List Text → List Text
insert_by key id [] = id ∷ []
insert_by key id (x ∷ xs) = if ltb (key x) (key id) then x ∷ insert_by key id xs else id ∷ x ∷ xs

unfoldable pub sort_by : (Text → ℕ) → List Text → List Text
sort_by key [] = []
sort_by key (x ∷ xs) = insert_by key x (sort_by key xs)

unfoldable pub load_all : Scheduler → List Loaded → Scheduler
load_all q found =
    let empty = record q { items = []; order = [] } in
    if q.persistent
    then (let l = load_items empty found in record l { order = sort_by (created l.items) l.order })
    else empty
