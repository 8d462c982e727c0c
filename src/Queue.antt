-- ===== src/Queue.antt =====
-- src/engine/test_queue.h: the priority queue of submitted tests.
--
-- Each method holds the mutex for one section, which is one function here; the events that it
-- publishes afterwards are part of its result. `sequence_` and `idCounter_` wrap as
-- `unsigned long long` and `unsigned` do. The local time's text is a parameter, `stamp`.
pub mod Order
pub mod Levels
pub mod Lookup
use testhub.Base.{
  ℕ, zero, suc, ◌+◌, ◌%◌, ◌^◌, Bool, true, false, not, ◌||◌, List, [], ◌∷◌, ◌++◌, map, Option, none,
  some, length, is_empty, any, ltb, if◌then◌else◌, Text, codes, text_eq, to_string, three_digits,
  insert, ◌==◌,
}
use testhub.Base.Int.{ℤ, pos, negsuc}
use testhub.Model.{TestRequest, Event, priority_rank}

pub record TestTask : Type 0 where
  pub request : TestRequest
  pub submit_time : ℕ
  pub sequence : ℕ

pub record TestQueue : Type 0 where
  pub items : List TestTask
  pub closed : Bool
  pub sequence : ℕ
  pub id_counter : ℕ

abbrev pub initial : TestQueue
initial = record { items = []; closed = false; sequence = 0; id_counter = 0 }

-- `static_cast<int>(t.request.priority)`.
abbrev pub rank : TestTask → ℕ
rank t = priority_rank t.request.priority

abbrev pub id_of : TestTask → Text
id_of t = t.request.id

-- The event of a change of the queue.
pub queue_updated : Text → ℕ → Text → ℕ → Event
queue_updated id size action now = record {
  type = codes "queue.updated";
  test_id = id;
  timestamp = now;
  content = insert (codes "queue_size") (to_string size) (insert (codes "action") action []);
}

-- `items_.insert(find_if(..., rank(t) < rank(task)), task)`.
unfoldable pub insert_task : TestTask → List TestTask → List TestTask
insert_task task [] = task ∷ []
insert_task task (t ∷ ts) =
    if ltb (rank t) (rank task) then task ∷ t ∷ ts else t ∷ insert_task task ts

module _ (stamp : ℕ → Text) where
  -- The id, and the counter left behind.
  unfoldable pub generate_task_id : TestQueue → ℕ → TestQueue × Text
  generate_task_id q tp =
      let counter = (q.id_counter + 1) % 2 ^ 32 in
      (
        record q { id_counter = counter },
        codes "test-" ++ (stamp tp ++ (codes "-" ++ three_digits (counter % 1000))),
      )

  unfoldable pub enqueue : TestQueue → TestRequest → ℕ → TestQueue × Text × List Event
  enqueue q request now =
      let sequence = (q.sequence + 1) % 2 ^ 64 in
      let (q', id) = if is_empty request.id then generate_task_id q now else (q, request.id) in
      let task : TestTask = record {
        request = record request { id = id };
        submit_time = now;
        sequence = sequence;
      } in
      let items = insert_task task q.items in
      (
        record q' { items = items; sequence = sequence },
        id,
        queue_updated id (length items) (codes "enqueued") now ∷ [],
      )

-- The front of the queue, if there is one.
unfoldable pub take_front : TestQueue → List TestTask → TestQueue × Option TestTask
take_front q [] = (q, none)
take_front q (t ∷ ts) = (record q { items = ts }, some t)

abbrev pub dequeue : TestQueue → TestQueue × Option TestTask
dequeue q = take_front q q.items

-- The condition that ends the wait before its time is up.
abbrev pub is_awake : TestQueue → Bool
is_awake q = q.closed || not (is_empty q.items)

-- What `waitAndDequeue` does when it wakes up, by the condition or by the time: `q` is the queue
-- at that moment.
abbrev pub wait_and_dequeue : TestQueue → TestQueue × Option TestTask
wait_and_dequeue q = take_front q q.items

-- `find_if` by id, and `erase` of what it found.
unfoldable pub erase_first : Text → List TestTask → List TestTask
erase_first id [] = []
erase_first id (t ∷ ts) = if text_eq (id_of t) id then ts else t ∷ erase_first id ts

abbrev pub has_id : Text → List TestTask → Bool
has_id id = any (λ t. text_eq (id_of t) id)

unfoldable pub cancel : TestQueue → Text → ℕ → TestQueue × Bool × List Event
cancel q id now =
    if has_id id q.items
    then (
      record q { items = erase_first id q.items },
      true,
      queue_updated id (length (erase_first id q.items)) (codes "cancelled") now ∷ [],
    )
    else (q, false, [])

abbrev pub contains : TestQueue → Text → Bool
contains q id = has_id id q.items

unfoldable pub position_from : ℕ → Text → List TestTask → ℤ
position_from idx id [] = negsuc 0
position_from idx id (t ∷ ts) =
    if text_eq (id_of t) id then pos idx else position_from (idx + 1) id ts

abbrev pub position : TestQueue → Text → ℤ
position q id = position_from 0 id q.items

abbrev pub size : TestQueue → ℕ
size q = length q.items

abbrev pub clear : TestQueue → TestQueue
clear q = record q { items = [] }

abbrev pub close : TestQueue → TestQueue
close q = record q { closed = true }

abbrev pub reopen : TestQueue → TestQueue
reopen q = record q { closed = false }

abbrev pub get_task_ids : TestQueue → List Text
get_task_ids q = map id_of q.items
