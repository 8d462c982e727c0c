-- ===== src/Engine/Invariant/Preserved.antt =====
-- That each section under the record lock keeps the invariant.
use mathlib.Core.Path.{subst}
use testhub.Engine.Finish.{
  flag_of, begin, finished_record, finish, load_record, load_records, load_found, load_history,
}
use testhub.Base.{
  IsDistinct-concat, or_else, find-insert, mem_text-append, if◌then◌else◌, IsDistinct-keep,
  mem_text-keep, ℕ, ◌≡◌, refl, sym, ◌∙◌, arith, inl, inr, Bool, true, false, not, List, [], ◌∷◌,
  Bool-cases, Option-cases, Text, text_eq_iff, IsDistinct, has, find, erase, find-erase,
}
use testhub.Model.{is_terminal_state, TestStatus, TestResult, Event, state_eq, cancelled}
use testhub.Queue
use testhub.Engine.{TestRecord, Engine, is_finished, persist, store_save, empty_record}
use testhub.Engine.History.{Held, held, remove, clear_history}
use testhub.Engine.History.Clear.{remove-Without, clear_history_lem}
use testhub.Engine.Cancel.{
  put_if_there, cancel, cancel_found, cancelled_record, finish_cancelled, cancel_running,
  mark_stopped, mark_error, copy_status,
}
use testhub.Engine.Invariant.{IsValid, update-IsValid, trim_history-IsValid}

pub remove-IsValid : (e : Engine) (id : Text) → IsValid (held e) → IsValid (held (remove e id).0)
remove-IsValid e id v = elim (Bool-cases (is_finished e.records id)) [
  | inl done ↦
      let w = (remove-Without e id).1 done in
      record {
        distinct = subst IsDistinct (sym w.order) (IsDistinct-keep _ e.order v.distinct);
        places = λ x. ground (arith, w.places x, w.records x, v.places x);
        flagged = λ x f. ground (arith, w.flags x, w.records x, v.flagged x);
      }
  | inr no_end ↦ subst (λ e'. IsValid (held e')) (sym ((remove-Without e id).2 no_end)) v
]

has-finished : (e : Engine) (x : Text) → is_finished e.records x ≡ true → has x e.records ≡ true
unfolding is_finished
has-finished e x h = ground arith

pub clear_history-IsValid : (e : Engine) → IsValid (held e) → IsValid (held (clear_history e).0)
clear_history-IsValid e v =
    let (_, order, records, flags) = clear_history_lem e v.distinct in
    record {
      distinct = subst IsDistinct (sym order) (IsDistinct-keep _ e.order v.distinct);
      places = λ x. ground (
        arith,
        order,
        records x,
        v.places x,
        has-finished e x,
        mem_text-keep (λ y. not (is_finished e.records y)) x e.order,
      );
      flagged = λ x f. ground (arith, records x, flags x, v.flagged x);
    }

store_save-held : (e : Engine) (r : TestRecord) (w : Bool) → held (persist e r w) ≡ held e
unfolding persist store_save
store_save-held e r w = ground arith

drop_flag-IsValid :
    (h : Held) (id : Text)
    → IsValid h
    → IsValid (record h { cancel_flags = erase id h.cancel_flags })
drop_flag-IsValid h id v = record {
  distinct = v.distinct;
  places = v.places;
  flagged = λ x f. ground (arith, v.flagged x, find-erase x id h.cancel_flags);
}

put_if_there-IsValid :
    (h : Held) (id : Text) (r : TestRecord)
    → IsValid h
    → IsValid (record h { records = put_if_there id r h.records })
unfolding put_if_there
put_if_there-IsValid h id r v = elim (Option-cases (find id h.records)) [
  | inl n ↦ rw (n, put_if_there) v
  | inr (old, s) ↦ rw (s, put_if_there) (update-IsValid h id r (rw s refl) v)
]

finish_cancelled-IsValid :
    (e : Engine) (id : Text) (r : TestRecord) (written : Bool) (now : ℕ)
    → IsValid (held e)
    → IsValid (held (finish_cancelled e id r written now))
unfolding finish_cancelled
finish_cancelled-IsValid e id r written now v = drop_flag-IsValid _ id (
    put_if_there-IsValid (held (persist e r written)) id r
      (subst IsValid (sym (store_save-held e r written)) v))

cancel_found-IsValid :
    (e : Engine) (id : Text) (r : TestRecord) (q w : Bool) (now : ℕ)
    → IsValid (held e)
    → IsValid (held (cancel_found e id r q w now).0)
unfolding cancel_found cancel_running
cancel_found-IsValid e id r q w now v = elim (Bool-cases (is_terminal_state r.status.state)) [
  | inl t ↦ rw t v
  | inr t ↦ elim (Bool-cases q) [
    | inl queued ↦
        rw (t, queued) (finish_cancelled-IsValid e id (cancelled_record r id now) w now v)
    | inr running ↦ elim (Option-cases (find id e.cancel_flags)) [
      | inl n ↦ rw (t, running, n, cancel_running) v
      | inr (at, s) ↦ rw (t, running, s, cancel_running) v
    ]
  ]
]

pub cancel-IsValid :
    (e : Engine) (id : Text) (w : Bool) (now : ℕ)
    → IsValid (held e)
    → IsValid (held (cancel e id w now).0)
unfolding cancel
cancel-IsValid e id w now v = elim (Option-cases (find id e.records)) [
  | inl n ↦ rw (n, cancel) v
  | inr (r, s) ↦
      rw (s, cancel) (cancel_found-IsValid _ id r (Queue.cancel e.queue id now).1 w now v)
]

pub mark_stopped-IsValid :
    (e : Engine) (id : Text) (now : ℕ) → IsValid (held e) → IsValid (held (mark_stopped e id now))
unfolding mark_stopped
mark_stopped-IsValid e id now v = elim (Option-cases (find id e.records)) [
  | inl n ↦ rw (n, mark_stopped) v
  | inr (r, s) ↦ rw (s, mark_stopped) (update-IsValid (held e) id _ (rw s refl) v)
]

pub mark_error-IsValid :
    (e : Engine) (id what : Text) (now : ℕ)
    → IsValid (held e)
    → IsValid (held (mark_error e id what now))
unfolding mark_error
mark_error-IsValid e id what now v = elim (Option-cases (find id e.records)) [
  | inl n ↦ rw (n, mark_error) v
  | inr (r, s) ↦ rw (s, mark_error) (update-IsValid (held e) id _ (rw s refl) v)
]

pub copy_status-IsValid :
    (e : Engine) (id : Text) (snap : TestStatus)
    → IsValid (held e)
    → IsValid (held (copy_status e id snap))
unfolding copy_status
copy_status-IsValid e id snap v = elim (Option-cases (find id e.records)) [
  | inl n ↦ rw (n, copy_status) v
  | inr (r, s) ↦ rw (s, copy_status) (update-IsValid (held e) id _ (rw s refl) v)
]

pub finish-IsValid :
    (e : Engine) (id : Text) (s : TestStatus) (r : TestResult) (written : Bool) (event : Event)
    → IsValid (held e)
    → IsValid (held (finish e id s r written event))
unfolding finish
finish-IsValid e id s r written event v =
    let r' = finished_record (or_else (find id e.records) empty_record) s r in
    drop_flag-IsValid _ id (
      put_if_there-IsValid (held (persist e r' written)) id r'
        (subst IsValid (sym (store_save-held e r' written)) v))

-- A run begins with a flag only if the test has a record.
flag_of-IsValid :
    (e : Engine) (id : Text)
    → has id e.records ≡ true
    → IsValid (held e)
    → IsValid (held (flag_of e id).0)
unfolding flag_of
flag_of-IsValid e id there v = elim (Option-cases (find id e.cancel_flags)) [
  | inr (at, f) ↦ rw (f, flag_of) v
  | inl f ↦
      rw (f, flag_of)
        (record {
          distinct = v.distinct;
          places = v.places;
          flagged = λ x h. ground (
            arith,
            v.flagged x,
            there,
            text_eq_iff id x,
            find-insert x id e.next_flag e.cancel_flags,
          );
        })
]

pub begin-IsValid : (e : Engine) (id : Text) → IsValid (held e) → IsValid (held (begin e id).0)
unfolding begin
begin-IsValid e id v = elim (Option-cases (find id e.records)) [
  | inl n ↦ rw (n, begin) v
  | inr (r, s) ↦
      let started = flag_of-IsValid e id (rw s refl) v in
      rw (s, begin)
        (elim (Bool-cases (state_eq r.status.state cancelled)) [
          | inl over ↦ rw over v
          | inr going ↦ rw going started
        ])
]

load_record-IsValid :
    (e : Engine) (r : TestRecord) → IsValid (held e) → IsValid (held (load_record e r))
unfolding load_record
load_record-IsValid e r v = elim (Bool-cases (has r.status.test_id e.records)) [
  | inl old ↦ rw old v
  | inr new ↦ rw new (record {
    distinct =
        IsDistinct-concat r.status.test_id e.order (v.places r.status.test_id ∙ new) v.distinct;
    places = λ x.
        mem_text-append x e.order (r.status.test_id ∷ [])
        ∙ ground (arith, v.places x, find-insert x r.status.test_id r e.records);
    flagged = λ x h. ground (arith, v.flagged x, find-insert x r.status.test_id r e.records);
  })
]

load_records-IsValid :
    (e : Engine) (rs : List TestRecord) → IsValid (held e) → IsValid (held (load_records e rs))
unfolding load_records
load_records-IsValid e [] v = v
load_records-IsValid e (r ∷ rs) v =
    load_records-IsValid (load_record e r) rs (load_record-IsValid e r v)

pub load_history-IsValid :
    (e : Engine) (loaded : Bool) (found : List TestRecord)
    → IsValid (held e)
    → IsValid (held (load_history e loaded found).0)
unfolding load_history
load_history-IsValid e true found v = v
load_history-IsValid e false found v = by_store e.store_enabled
  where
    by_store :
        (b : Bool)
        → let o : Engine × Bool = if b then (load_found e found, true) else (e, true) in
          IsValid (held o.0)
    by_store false = v
    by_store true = trim_history-IsValid _ (load_records-IsValid e found v)
