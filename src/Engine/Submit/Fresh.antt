-- ===== src/Engine/Submit/Fresh.antt =====
-- What a submission does: a new id, a queued record, a task in the queue; and the search for an id.
use mathlib.Core.Path.{subst}
use testhub.Base.{
  ℕ, zero, suc, ◌+◌, ◌%◌, ◌^◌, ◌<◌, ◌≡◌, refl, ◌∙◌, arith, inl, inr, true, false, List, [], ◌∷◌,
  ◌++◌, Option, none, some, Bool-cases, is_empty, length, ltb, Text, codes, three_digits,
  text_eq_refl, Map, has, find, insert, find-insert, ap, sym, not, ◌&&◌, if◌then◌else◌,
}
use testhub.Model.{TestRequest, is_terminal_state, queued}
use testhub.TagFilter
use testhub.Queue.{
  TestQueue, TestTask, generate_task_id, enqueue, contains, has_id, insert_task, id_of, rank,
}
use testhub.Engine.{TestRecord, Engine}
use testhub.Engine.History.{trim_history, is_removable}
use testhub.Engine.History.Trim.{trim_history-Keeps}
use testhub.Engine.Submit.{
  Submission, accepted, Checked, resolved, refused, Resolver, submit_check, fresh_id, choose_id,
  new_record, submit_insert, submit_enqueue, submit,
}

module _ (stamp : ℕ → Text) where
  -- An id that the search finds has no record.
  fresh_id-free :
      (fuel : ℕ) (records : Map TestRecord) (q : TestQueue) (tp : ℕ) {q' : TestQueue} {id : Text}
      → fresh_id stamp fuel records q tp ≡ some (q', id)
      → has id records ≡ false
  unfolding fresh_id
  fresh_id-free zero records q tp h = cc
  fresh_id-free (suc fuel) records q tp h =
      elim (Bool-cases (has (generate_task_id stamp q tp).1 records)) [
        | inl taken ↦
            fresh_id-free fuel records (generate_task_id stamp q tp).0 tp
              (rw (taken, fresh_id) at h)
        | inr free ↦ let e = rw (free, fresh_id) at h in ground arith
      ]

  -- If all the thousand ids of the second are taken, the search goes on for ever.
  pub fresh_id-spins :
      (fuel : ℕ) (records : Map TestRecord) (q : TestQueue) (tp : ℕ)
      → ((k : ℕ)
          → k < 1000
          → has (codes "test-" ++ (stamp tp ++ (codes "-" ++ three_digits k))) records ≡ true)
      → fresh_id stamp fuel records q tp ≡ none
  unfolding fresh_id generate_task_id
  fresh_id-spins zero records q tp h = refl
  fresh_id-spins (suc fuel) records q tp h =
      let k = (q.id_counter + 1) % 2 ^ 32 % 1000 in
      rw (h k (omega arith), fresh_id)
        (fresh_id-spins fuel records (record q { id_counter = (q.id_counter + 1) % 2 ^ 32 }) tp h)

  has_id-insert_task :
      (t : TestTask) (ts : List TestTask) → has_id (id_of t) (insert_task t ts) ≡ true
  unfolding insert_task
  has_id-insert_task t [] = rw (text_eq_refl (id_of t)) refl
  has_id-insert_task t (u ∷ ts) = elim (Bool-cases (ltb (rank u) (rank t))) [
    | inl e ↦ rw (e, text_eq_refl (id_of t)) refl
    | inr e ↦ rw (e, has_id-insert_task t ts) (ground arith)
  ]

  -- A task that is enqueued with an id is in the queue under that id.
  contains-enqueue :
      (q : TestQueue) (r : TestRequest) (now : ℕ)
      → is_empty r.id ≡ false
      → contains (enqueue stamp q r now).0 r.id ≡ true
  unfolding enqueue
  contains-enqueue q r now h = rw h (has_id-insert_task _ q.items)

  fresh_id-nonempty :
      (fuel : ℕ) (records : Map TestRecord) (q : TestQueue) (tp : ℕ) {q' : TestQueue} {id : Text}
      → fresh_id stamp fuel records q tp ≡ some (q', id)
      → is_empty id ≡ false
  unfolding fresh_id generate_task_id
  fresh_id-nonempty zero records q tp h = cc
  fresh_id-nonempty (suc fuel) records q tp {q'} {id} h =
      let q1 : TestQueue = (generate_task_id stamp q tp).0 in
      let id1 : Text = (generate_task_id stamp q tp).1 in
      elim (Bool-cases (has id1 records)) [
        | inl taken ↦ fresh_id-nonempty fuel records q1 tp (rw (taken, fresh_id) at h)
        | inr free ↦
            let e : some (q1, id1) ≡ some (q', id) = rw (free, fresh_id) at h in
            let same : id1 ≡ id = cc in subst (λ x. is_empty x ≡ false) same (first_byte q tp)
      ]
    where
      first_byte : (q : TestQueue) (tp : ℕ) → is_empty (generate_task_id stamp q tp).1 ≡ false
      first_byte q tp = refl

module _ (resolve : Resolver) (stamp : ℕ → Text) where
  submit_check-free :
      (e : Engine) (r : TestRequest) {found : List Text}
      → submit_check resolve e r ≡ resolved found
      → is_empty r.id ≡ false
      → has r.id e.records ≡ false
  unfolding submit_check
  submit_check-free e r h n = ground arith

  resolved-injective : {a b : List Text} → resolved a ≡ resolved b → a ≡ b
  resolved-injective {a} h = ap (λ c. elim c [ resolved found ↦ found | refused m ↦ a ]) h

  -- The files of an accepted submission are those that were found for its paths.
  submit_check-found :
      (e : Engine) (r : TestRequest) {found : List Text}
      → submit_check resolve e r ≡ resolved found
      → found ≡ (resolve r.spec_files).1
  unfolding submit_check
  submit_check-found e r {found} h =
      let (missing, there) = resolve r.spec_files in
      elim (Bool-cases (is_empty missing)) [
        | inr e1 ↦ let h' = rw e1 at h in cc
        | inl e1 ↦ elim (Bool-cases (is_empty there)) [
          | inl e2 ↦ let h' = rw (e1, e2) at h in cc
          | inr e2 ↦ let h' = rw (e1, e2) at h in by_tags (TagFilter.all r.tags).1 h'
        ]
      ]
    where
      by_tags :
          (o : Option Text)
          → (elim o [
                | some message ↦ refused (codes "Invalid tag expression: " ++ message)
                | none ↦
                    if not (is_empty r.id) && has r.id e.records
                    then refused (codes "Test ID already exists: " ++ r.id)
                    else resolved (resolve r.spec_files).1
              ])
            ≡ resolved found
          → found ≡ (resolve r.spec_files).1
      by_tags (some message) h = cc
      by_tags none h = elim (Bool-cases (not (is_empty r.id) && has r.id e.records)) [
        | inl e3 ↦ let h' = rw e3 at h in cc
        | inr e3 ↦ let h' = rw e3 at h in sym (resolved-injective h')
      ]

  choose_id-free :
      (fuel : ℕ) (e : Engine) (r : TestRequest) (now : ℕ) {found : List Text} {q : TestQueue}
      {id : Text}
      → submit_check resolve e r ≡ resolved found
      → choose_id stamp fuel e r now ≡ some (q, id)
      → (has id e.records ≡ false) × (is_empty id ≡ false)
  unfolding choose_id
  choose_id-free fuel e r now {id = id} checked h = elim (Bool-cases (is_empty r.id)) [
    | inl none_given ↦
        let f = rw none_given at h in
        (
          fresh_id-free stamp fuel e.records e.queue now f,
          fresh_id-nonempty stamp fuel e.records e.queue now f,
        )
    | inr given ↦
        let same : r.id ≡ id = ground arith in
        (
          subst (λ x. has x e.records ≡ false) same (submit_check-free e r checked given),
          subst (λ x. is_empty x ≡ false) same given,
        )
  ]

  inserted-queued :
      (e : Engine) (request : TestRequest) (id : Text) (found : List Text) (now : ℕ)
      → let r = new_record request id found now in
        (find id (submit_insert e id r).records ≡ some r)
        × (is_removable (submit_insert e id r).records id ≡ false)
  unfolding submit_insert is_removable is_terminal_state
  inserted-queued e request id found now =
      let r = new_record request id found now in
      let there : find id (insert id r e.records) ≡ some r =
        find-insert id id r e.records ∙ rw (text_eq_refl id) refl in
      (there, rw (there, is_removable) refl)

  -- What stands after the sections behind the insertion.
  submit_enqueue-holds :
      (e : Engine) (request : TestRequest) (id : Text) (found : List Text) (now : ℕ)
      → is_empty id ≡ false
      → let r = new_record request id found now in
        let f = submit_enqueue resolve stamp (submit_insert e id r) request id (length found) now in
        (find id f.records ≡ some r) × (contains f.queue id ≡ true)
  unfolding submit_enqueue
  submit_enqueue-holds e request id found now n =
      let inserted = submit_insert e id (new_record request id found now) in
      let (there, stays) = inserted-queued e request id found now in
      (
        (trim_history-Keeps inserted).same_record id stays ∙ there,
        contains-enqueue stamp (trim_history inserted).queue (record request { id = id }) now n,
      )

  -- What an accepted submission leaves.
  pub record IsAccepted (e : Engine) (request : TestRequest) (now : ℕ) (f : Engine) (id : Text)
      : Type 0 where
    pub found : List Text
    pub checked : submit_check resolve e request ≡ resolved found
    pub fresh : has id e.records ≡ false
    pub is_found : found ≡ (resolve request.spec_files).1
    pub stored_record : TestRecord
    pub stored : find id f.records ≡ some stored_record
    pub same_request : stored_record.request ≡ record request { id = id }
    pub state : stored_record.status.state ≡ queued
    pub test_id : stored_record.status.test_id ≡ id
    pub submit_time : stored_record.status.submit_time ≡ now
    pub total_specs : stored_record.status.total_specs ≡ length found
    pub no_result : stored_record.has_result ≡ false
    pub specs : stored_record.resolved_specs ≡ found
    pub waiting : contains f.queue id ≡ true

  abbrev Leaves : Engine → TestRequest → ℕ → Submission → Type 0
  Leaves e request now (accepted f id) = IsAccepted e request now f id
  Leaves e request now _ = Unit

  submit-Leaves :
      (fuel : ℕ) (e : Engine) (request : TestRequest) (now : ℕ)
      → Leaves e request now (submit resolve stamp fuel e request now)
  unfolding submit
  submit-Leaves fuel e request now = checks (submit_check resolve e request) refl
    where
      chooses :
          (found : List Text) (o : Option (TestQueue × Text))
          → submit_check resolve e request ≡ resolved found
          → choose_id stamp fuel e request now ≡ o
          → Leaves e request now (submit resolve stamp fuel e request now)
      chooses found none c o = rw (c, submit, o) tt
      chooses found (some (q, id)) c o =
          let (free, n) = choose_id-free fuel e request now c o in
          let (stored, waiting) =
            submit_enqueue-holds (record e { queue = q }) request id found now n in
          rw (c, submit, o)
            (record {
              found = found;
              checked = c;
              fresh = free;
              is_found = submit_check-found e request c;
              stored_record = new_record request id found now;
              stored = stored;
              same_request = refl;
              state = refl;
              test_id = refl;
              submit_time = refl;
              total_specs = refl;
              no_result = refl;
              specs = refl;
              waiting = waiting;
            })

      checks :
          (c : Checked)
          → submit_check resolve e request ≡ c
          → Leaves e request now (submit resolve stamp fuel e request now)
      checks (refused message) c = rw (c, submit) tt
      checks (resolved found) c = chooses found (choose_id stamp fuel e request now) c refl

  -- An accepted submission has an id that had no record. Under it the test now has a record of the
  -- request with that id, queued at the time of the call, without a result and with the files that
  -- were found for the request's paths, and it stands in the queue.
  pub submit-IsAccepted :
      (fuel : ℕ) (e : Engine) (request : TestRequest) (now : ℕ) {f : Engine} {id : Text}
      → submit resolve stamp fuel e request now ≡ accepted f id
      → IsAccepted e request now f id
  submit-IsAccepted fuel e request now h =
      subst (Leaves e request now) h (submit-Leaves fuel e request now)
