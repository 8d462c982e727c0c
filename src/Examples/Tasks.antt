-- ===== src/Examples/Tasks.antt =====
-- The queue and the engine.
use testhub.Base.{
  ℕ, ◌≡◌, ◌<◌, refl, inl, arith, true, false, [], ◌∷◌, ◌++◌, Text, codes, if◌then◌else◌, ◌==◌,
}
use testhub.Model.{TestRequest, Priority, urgent, normal, empty_request, priority_rank}
use testhub.Queue.{TestTask, TestQueue, enqueue, dequeue, take_front, contains, rank, cancel}
use testhub.Queue.Order.{IsValid, enqueue-IsValid}
use testhub.Queue.Levels.{level, level-enqueue, level-dequeue}
use testhub.Queue.Lookup.{Removes, cancel-Removes}

abbrev no_stamp : ℕ → Text
no_stamp n = codes "20260101-000000"

abbrev request_of : Text → Priority → TestRequest
request_of id p = record empty_request { id = id; priority = p }

abbrev urgent_task : TestTask
urgent_task = record { request = request_of (codes "b") urgent; submit_time = 5; sequence = 2 }

abbrev two_tasks : TestQueue
two_tasks = record {
  items =
      urgent_task
      ∷ record { request = request_of (codes "a") normal; submit_time = 4; sequence = 1 }
      ∷ [];
  closed = false;
  sequence = 2;
  id_counter = 0;
}

two_tasks-IsValid : IsValid two_tasks
unfolding priority_rank
two_tasks-IsValid = record {
  sorted = ((inl (omega arith), tt), (tt, tt));
  numbered = (omega arith, (omega arith, tt));
}

level-enqueue_example :
    (task : TestTask) × (task.request ≡ record (request_of (codes "c") normal) {
      id = (enqueue no_stamp two_tasks (request_of (codes "c") normal) 6).1;
    })
    × (task.submit_time ≡ 6)
    × ((p : ℕ)
        → level p (enqueue no_stamp two_tasks (request_of (codes "c") normal) 6).0.items
          ≡ level p two_tasks.items ++ (if rank task == p then task ∷ [] else []))
level-enqueue_example =
    level-enqueue no_stamp two_tasks (request_of (codes "c") normal) 6 two_tasks-IsValid

level-dequeue_example :
    ((p : ℕ) → rank urgent_task < p → level p two_tasks.items ≡ [])
    × ((p : ℕ)
        → level p two_tasks.items ≡ (
            if rank urgent_task == p
            then urgent_task ∷ level p (dequeue two_tasks).0.items
            else level p (dequeue two_tasks).0.items))
unfolding take_front
level-dequeue_example = level-dequeue two_tasks urgent_task two_tasks-IsValid refl

enqueue_example : IsValid (enqueue no_stamp two_tasks (request_of (codes "c") urgent) 6).0
enqueue_example =
    enqueue-IsValid no_stamp two_tasks (request_of (codes "c") urgent) 6 (omega arith)
      two_tasks-IsValid

cancel_example :
    ((cancel two_tasks (codes "a") 7).1 ≡ contains two_tasks (codes "a"))
    × (contains two_tasks (codes "a") ≡ true
        → Removes (codes "a") two_tasks.items (cancel two_tasks (codes "a") 7).0.items)
    × (contains two_tasks (codes "a") ≡ false → (cancel two_tasks (codes "a") 7).0 ≡ two_tasks)
cancel_example = cancel-Removes two_tasks (codes "a") 7
