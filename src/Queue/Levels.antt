-- ===== src/Queue/Levels.antt =====
-- The queue seen as one first-in-first-out list for each priority.
use mathlib.Core.List.{append-nil}
use testhub.Base.{
  ℕ, ◌<◌, ◌≡◌, refl, inl, inr, List, [], ◌∷◌, ◌++◌, some, Bool-cases, arith, ltb, ◌==◌,
  if◌then◌else◌, All, All-mono, keep, Text,
}
use testhub.Model.{TestRequest}
use testhub.Queue.{TestTask, TestQueue, rank, insert_task, enqueue, dequeue, take_front}
use testhub.Queue.Order.{Before, IsSorted, IsValid, dequeue-first}

-- The tasks of priority `p`, in the order in which they will be served.
abbrev pub level : ℕ → List TestTask → List TestTask
level p = keep λ t. rank t == p

level-none : (p : ℕ) (ts : List TestTask) → All (λ t. rank t < p) ts → level p ts ≡ []
level-none p [] a = refl
level-none p (t ∷ ts) a = ground (arith, level-none p ts a.1)

-- Behind a task of lower rank nothing has the rank of a new task.
level-lower :
    (p : ℕ) (t : TestTask) (ts : List TestTask)
    → rank t < p
    → All (Before t) ts
    → level p (t ∷ ts) ≡ []
level-lower p t ts h a =
    level-none p (t ∷ ts) (h, All-mono _ _ ts (λ u (b : Before t u). ground arith) a)

level-insert_task :
    (p : ℕ) (task : TestTask) (ts : List TestTask)
    → IsSorted ts
    → level p (insert_task task ts) ≡ level p ts ++ (if rank task == p then task ∷ [] else [])
unfolding insert_task
level-insert_task p task [] s = ground arith
level-insert_task p task (t ∷ ts) s = elim (Bool-cases (ltb (rank t) (rank task))) [
  | inl e ↦ rw e (
      ground
        (arith, level-lower (rank task) t ts (ground arith) s.0, append-nil (level p (t ∷ ts))))
  | inr e ↦ rw e (ground (arith, level-insert_task p task ts s.1))
]

-- In a valid queue an enqueued task, which has the request with its id and the time, goes to the end
-- of the list of its own priority, and the other lists stay.
pub level-enqueue :
    (stamp : ℕ → Text) (q : TestQueue) (r : TestRequest) (now : ℕ)
    → IsValid q
    → (task : TestTask) × (task.request ≡ record r { id = (enqueue stamp q r now).1 })
      × (task.submit_time ≡ now)
      × ((p : ℕ)
          → level p (enqueue stamp q r now).0.items
            ≡ level p q.items ++ (if rank task == p then task ∷ [] else []))
unfolding enqueue
level-enqueue stamp q r now v = (_, refl, refl, λ p. level-insert_task p _ q.items v.sorted)

level-Before :
    (p : ℕ) (t : TestTask) (ts : List TestTask) → rank t < p → All (Before t) ts → level p ts ≡ []
level-Before p t ts h a = level-none p ts (All-mono _ _ ts (λ u (b : Before t u). ground arith) a)

-- The task that a valid queue serves is the head of the highest list that is not empty, and it leaves
-- that list only.
pub level-dequeue :
    (q : TestQueue) (t : TestTask)
    → IsValid q
    → (dequeue q).1 ≡ some t
    → ((p : ℕ) → rank t < p → level p q.items ≡ [])
      × ((p : ℕ)
          → level p q.items ≡ (
              if rank t == p then t ∷ level p (dequeue q).0.items else level p (dequeue q).0.items))
unfolding take_front
level-dequeue q t v e =
    let (a, split) = dequeue-first q t v e in
    (λ p h. rw split (ground (arith, level-Before p t (dequeue q).0.items h a)), λ p. rw split refl)
