-- ===== src/Queue/Order.antt =====
-- The queue is sorted: falling priority, and rising sequence numbers within a priority.
use testhub.Base.{
  ℕ, ◌+◌, ◌%◌, ◌^◌, ◌≤◌, ◌<◌, ◌≡◌, refl, ◌⊎◌, inl, inr, List, [], ◌∷◌, some, Bool-cases, arith, ltb,
  All, All-mono, any, Text, text_eq,
}
use testhub.Model.{TestRequest}
use testhub.Queue.{
  TestTask, TestQueue, rank, id_of, insert_task, enqueue, dequeue, take_front, erase_first, cancel,
}

-- `a` is served before `b`.
abbrev pub Before : TestTask → TestTask → Type 0
Before a b = (rank b < rank a) ⊎ ((rank a ≡ rank b) × (a.sequence < b.sequence))

abbrev pub IsSorted : List TestTask → Type 0
IsSorted [] = Unit
IsSorted (t ∷ ts) = All (Before t) ts × IsSorted ts

-- Every number given out so far is at most the counter.
abbrev Numbered : ℕ → List TestTask → Type 0
Numbered n = All λ t. t.sequence ≤ n

pub record IsValid (q : TestQueue) : Type 0 where
  pub sorted : IsSorted q.items
  pub numbered : Numbered q.sequence q.items

module _ (task : TestTask) where
  -- What stands behind a task that ranks lower ranks lower, too.
  Before-lower :
      (t : TestTask) (ts : List TestTask)
      → rank t < rank task
      → All (Before t) ts
      → All (Before task) ts
  Before-lower t [] h a = tt
  Before-lower t (u ∷ ts) h a = (ground arith, Before-lower t ts h a.1)

  insert_task-Before :
      (t : TestTask) (ts : List TestTask)
      → Before t task
      → All (Before t) ts
      → All (Before t) (insert_task task ts)
  unfolding insert_task
  insert_task-Before t [] h a = (h, tt)
  insert_task-Before t (u ∷ ts) h a = elim (Bool-cases (ltb (rank u) (rank task))) [
    | inl e ↦ rw e (h, a)
    | inr e ↦ rw e (a.0, insert_task-Before t ts h a.1)
  ]

  insert_task-IsSorted :
      (ts : List TestTask)
      → All (λ t. t.sequence < task.sequence) ts
      → IsSorted ts
      → IsSorted (insert_task task ts)
  unfolding insert_task
  insert_task-IsSorted [] n s = (tt, tt)
  insert_task-IsSorted (t ∷ ts) n s = elim (Bool-cases (ltb (rank t) (rank task))) [
    | inl e ↦ rw e (((inl (ground arith)), Before-lower t ts (ground arith) s.0), s)
    | inr e ↦ rw e (insert_task-Before t ts (ground arith) s.0, insert_task-IsSorted ts n.1 s.1)
  ]

  insert_task-All {κ} :
      (P : TestTask → Type κ) (ts : List TestTask) → P task → All P ts → All P (insert_task task ts)
  unfolding insert_task
  insert_task-All P [] h a = (h, tt)
  insert_task-All P (t ∷ ts) h a = elim (Bool-cases (ltb (rank t) (rank task))) [
    | inl e ↦ rw e (h, a)
    | inr e ↦ rw e (a.0, insert_task-All P ts h a.1)
  ]

erase_first-All {κ} :
    (P : TestTask → Type κ) (id : Text) (ts : List TestTask) → All P ts → All P (erase_first id ts)
unfolding erase_first
erase_first-All P id [] a = tt
erase_first-All P id (t ∷ ts) a = elim (Bool-cases (text_eq (id_of t) id)) [
  | inl e ↦ rw e a.1
  | inr e ↦ rw e (a.0, erase_first-All P id ts a.1)
]

erase_first-IsSorted : (id : Text) (ts : List TestTask) → IsSorted ts → IsSorted (erase_first id ts)
unfolding erase_first
erase_first-IsSorted id [] s = tt
erase_first-IsSorted id (t ∷ ts) s = elim (Bool-cases (text_eq (id_of t) id)) [
  | inl e ↦ rw e s.1
  | inr e ↦ rw e (erase_first-All (Before t) id ts s.0, erase_first-IsSorted id ts s.1)
]

take_front-IsValid :
    (q : TestQueue) (ts : List TestTask)
    → IsValid (record q { items = ts })
    → IsValid (take_front (record q { items = ts }) ts).0
unfolding take_front
take_front-IsValid q [] v = v
take_front-IsValid q (t ∷ ts) v = record { sorted = v.sorted.1; numbered = v.numbered.1 }

-- While the sequence number has not wrapped, `enqueue` keeps the queue sorted and numbered.
pub enqueue-IsValid :
    (stamp : ℕ → Text) (q : TestQueue) (r : TestRequest) (now : ℕ)
    → q.sequence + 1 < 2 ^ 64
    → IsValid q
    → IsValid (enqueue stamp q r now).0
unfolding enqueue
enqueue-IsValid stamp q r now h v =
    let e : (q.sequence + 1) % 2 ^ 64 ≡ q.sequence + 1 = omega arith in
    rw e (record {
      sorted =
          insert_task-IsSorted _ q.items
            (All-mono _ _ q.items (λ t (p : t.sequence ≤ q.sequence). omega arith) v.numbered)
            v.sorted;
      numbered =
          insert_task-All _ _ q.items (omega arith)
            (All-mono _ _ q.items (λ t (p : t.sequence ≤ q.sequence). omega arith) v.numbered);
    })

-- Taking the front keeps the queue sorted and numbered.
dequeue-IsValid : (q : TestQueue) → IsValid q → IsValid (dequeue q).0
dequeue-IsValid q v = take_front-IsValid q q.items v

-- So does a cancellation.
pub cancel-IsValid : (q : TestQueue) (id : Text) (now : ℕ) → IsValid q → IsValid (cancel q id now).0
unfolding cancel
cancel-IsValid q id now v = elim (Bool-cases (any (λ t. text_eq (id_of t) id) q.items)) [
  | inl e ↦ rw e (record {
    sorted = erase_first-IsSorted id q.items v.sorted;
    numbered = erase_first-All _ id q.items v.numbered;
  })
  | inr e ↦ rw e v
]

-- The task that is served comes before every task that stays.
pub dequeue-first :
    (q : TestQueue) (t : TestTask)
    → IsValid q
    → (dequeue q).1 ≡ some t
    → All (Before t) (dequeue q).0.items × (q.items ≡ t ∷ (dequeue q).0.items)
unfolding take_front
dequeue-first q t v e = first q.items v.sorted e
  where
    first :
        (ts : List TestTask)
        → IsSorted ts
        → (take_front q ts).1 ≡ some t
        → All (Before t) (take_front q ts).0.items × (ts ≡ t ∷ (take_front q ts).0.items)
    first [] s e = cc
    first (u ∷ ts) s e = let p : t ≡ u = cc in rw p (s.0, refl)
