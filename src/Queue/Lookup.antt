-- ===== src/Queue/Lookup.antt =====
-- Where a task stands in the queue, and what a cancellation takes out of it.

use testhub.Base.{
  ℕ, suc, ◌+◌, ◌≡◌, refl, ap, ◌↔◌, inl, inr, true, false, List, [], ◌∷◌, ◌++◌, some, Bool-cases,
  arith, get_elem?, take, Text, text_eq, text_eq_iff,
}
use testhub.Base.Int.{pos, negsuc}
use testhub.Queue.{
  TestTask, TestQueue, id_of, has_id, dequeue, take_front, erase_first, cancel, contains,
  position_from, position,
}

position_from-none :
    (k : ℕ) (id : Text) (ts : List TestTask)
    → (position_from k id ts ≡ negsuc 0) ↔ (has_id id ts ≡ false)
unfolding position_from
position_from-none k id [] = (λ _. refl, λ _. refl)
position_from-none k id (t ∷ ts) = ground (arith, position_from-none (k + 1) id ts)

position_from-pos :
    (k n : ℕ) (id : Text) (ts : List TestTask)
    → position_from k id ts ≡ pos n
    → (i : ℕ) × (t : TestTask) × (n ≡ k + i)
      × (get_elem? ts i ≡ some t)
      × (id_of t ≡ id)
      × (has_id id (take i ts) ≡ false)
unfolding position_from
position_from-pos k n id [] e = cc
position_from-pos k n id (t ∷ ts) e = elim (Bool-cases (text_eq (id_of t) id)) [
  | inl hit ↦ (0, t, ground arith, refl, (text_eq_iff (id_of t) id).0 hit, refl)
  | inr miss ↦
      let (i, u, at, item, same, none_before) = position_from-pos (k + 1) n id ts (rw miss at e) in
      (suc i, u, omega arith, item, same, rw miss none_before)
]

-- `position` is the index of the first task with the id, and -1 exactly if no task has it.
position-get_elem? :
    (q : TestQueue) (id : Text)
    → ((position q id ≡ negsuc 0) ↔ (contains q id ≡ false))
      × ((n : ℕ)
          → position q id ≡ pos n
          → (t : TestTask) × (get_elem? q.items n ≡ some t)
            × (id_of t ≡ id)
            × (has_id id (take n q.items) ≡ false))
position-get_elem? q id = (
  position_from-none 0 id q.items,
  λ n e.
      let (i, t, at, item, same, before) = position_from-pos 0 n id q.items e in
      let at' : n ≡ i = omega arith in rw at' (t, item, same, before),
)

-- A cancellation splits the queue at the first task with the id, which alone goes.
pub record Removes (id : Text) (ts us : List TestTask) : Type 0 where
  pub before : List TestTask
  pub task : TestTask
  pub after : List TestTask
  pub old : ts ≡ before ++ (task ∷ after)
  pub new : us ≡ before ++ after
  pub same : id_of task ≡ id
  pub fresh : has_id id before ≡ false

erase_first-Removes :
    (id : Text) (ts : List TestTask) → has_id id ts ≡ true → Removes id ts (erase_first id ts)
unfolding erase_first
erase_first-Removes id [] h = cc
erase_first-Removes id (t ∷ ts) h = elim (Bool-cases (text_eq (id_of t) id)) [
  | inl hit ↦ rw hit (record {
    before = [];
    task = t;
    after = ts;
    old = refl;
    new = refl;
    same = (text_eq_iff (id_of t) id).0 hit;
    fresh = refl;
  })
  | inr miss ↦
      let r = erase_first-Removes id ts (rw miss at h) in
      rw miss (record {
        before = t ∷ r.before;
        task = r.task;
        after = r.after;
        old = ap (◌∷◌ t) r.old;
        new = ap (◌∷◌ t) r.new;
        same = r.same;
        fresh = rw miss r.fresh;
      })
]

-- `cancel` reports whether a task has the id; it then takes the first such task out of the queue
-- and nothing else, and otherwise leaves the queue as it is.
pub cancel-Removes :
    (q : TestQueue) (id : Text) (now : ℕ)
    → ((cancel q id now).1 ≡ contains q id)
      × (contains q id ≡ true → Removes id q.items (cancel q id now).0.items)
      × (contains q id ≡ false → (cancel q id now).0 ≡ q)
unfolding cancel
cancel-Removes q id now = elim (Bool-cases (has_id id q.items)) [
  | inl e ↦ rw e (refl, λ _. erase_first-Removes id q.items e, λ h. cc)
  | inr e ↦ rw e (refl, λ h. cc, λ _. refl)
]

position_from-suc :
    (k n : ℕ) (id : Text) (ts : List TestTask)
    → position_from (suc k) id ts ≡ pos (suc n)
    → position_from k id ts ≡ pos n
unfolding position_from
position_from-suc k n id [] e = cc
position_from-suc k n id (t ∷ ts) e = ground (arith, position_from-suc (k + 1) n id ts)

position_from-ne-zero : (id : Text) (ts : List TestTask) → ¬ (position_from 1 id ts ≡ pos 0)
position_from-ne-zero id ts e =
    let (i, t, at, _, _, _) = position_from-pos 1 0 id ts e in omega arith

position_from-take_front :
    (q : TestQueue) (id : Text) (ts : List TestTask)
    → ((n : ℕ)
        → position_from 0 id ts ≡ pos (suc n)
        → position_from 0 id (take_front (record q { items = ts }) ts).0.items ≡ pos n)
      × (position_from 0 id ts ≡ pos 0
          → (t : TestTask) × ((take_front q ts).1 ≡ some t) × (id_of t ≡ id))
unfolding take_front position_from
position_from-take_front q id [] = (λ n e. cc, λ e. cc)
position_from-take_front q id (t ∷ ts) = elim (Bool-cases (text_eq (id_of t) id)) [
  | inl hit ↦ rw hit (λ n e. cc, λ e. (t, refl, (text_eq_iff (id_of t) id).0 hit))
  | inr miss ↦
      rw miss (λ n e. position_from-suc 0 n id ts e, λ e. absurd (position_from-ne-zero id ts e))
]

-- A task that waits at place n + 1 stands at place n after the next one is served; one at place 0
-- is the one that is served.
position-dequeue :
    (q : TestQueue) (id : Text)
    → ((n : ℕ) → position q id ≡ pos (suc n) → position (dequeue q).0 id ≡ pos n)
      × (position q id ≡ pos 0 → (t : TestTask) × ((dequeue q).1 ≡ some t) × (id_of t ≡ id))
position-dequeue q id = position_from-take_front q id q.items
