-- ===== src/Engine/Invariant.antt =====
-- The bookkeeping of the engine: the order lists exactly the ids that have a record, each once, and
-- only tests with a record have a cancel flag.
pub mod Preserved
pub mod Sections
use mathlib.Core.Path.{subst}
use testhub.Base.{
  IsDistinct-concat, ℕ, ◌≡◌, ◌≢◌, refl, sym, ap, ◌∙◌, arith, inl, inr, Bool, true, false, not, ◌&&◌,
  ◌||◌, List, [], ◌∷◌, ◌++◌, Option, none, some, Bool-cases, Option-cases, if◌then◌else◌, is_some,
  Text, text_eq_iff, text_eq_refl, mem_text, mem_text-append, IsDistinct, Map, has, find, insert,
  erase, find-insert, find-erase, keep, length, ltb, zero, suc,
}
use testhub.Model.{is_terminal_state, TestStatus}
use testhub.Engine.{TestRecord, Engine, is_finished, persist, store_save}
use testhub.Engine.History.{
  Held, held, put_held, remove, clear_loop, clear_history, trim_history, trim_loop, drop_entry,
  first_removable, is_removable, with_record,
}
use testhub.Engine.History.Trim.{trim_history-held, Splits, first_removable-Splits}
use testhub.Engine.History.Clear.{Without, remove-Without}
use testhub.Engine.Submit.{submit_insert}
use testhub.Engine.Cancel.{
  put_if_there, cancel, cancel_found, finish_cancelled, cancel_running, mark_stopped, mark_error,
  copy_status,
}

pub record IsValid (h : Held) : Type 0 where
  pub distinct : IsDistinct h.order
  pub places : (x : Text) → mem_text x h.order ≡ has x h.records
  pub flagged : (x : Text) → has x h.cancel_flags ≡ true → has x h.records ≡ true

-- A submission with an id that has no record keeps the bookkeeping.
pub submit_insert-IsValid :
    (e : Engine) (id : Text) (r : TestRecord)
    → has id e.records ≡ false
    → IsValid (held e)
    → IsValid (held (submit_insert e id r))
unfolding submit_insert
submit_insert-IsValid e id r n v = record {
  distinct = IsDistinct-concat id e.order (v.places id ∙ n) v.distinct;
  places = λ x.
      mem_text-append x e.order (id ∷ [])
      ∙ (ground (arith, v.places x, find-insert x id r e.records));
  flagged = λ x h. ground (
    arith,
    v.flagged x,
    find-insert x id r e.records,
    find-insert x id e.next_flag e.cancel_flags,
  );
}

-- Taking a listed id out.
module _ (id : Text) (after : List Text) where
  IsDistinct-middle :
      (before : List Text)
      → IsDistinct (before ++ (id ∷ after))
      → IsDistinct (before ++ after) × (mem_text id (before ++ after) ≡ false)
  IsDistinct-middle [] d = (d.1, d.0)
  IsDistinct-middle (x ∷ before) d =
      let (rest, gone) = IsDistinct-middle before d.1 in
      let split = mem_text-append x before (id ∷ after) in
      let split' = mem_text-append x before after in
      ((ground (arith, d.0), rest), ground (arith, d.0, text_eq_iff x id, text_eq_iff id x))

drop_entry-IsValid :
    (h : Held) (id : Text) (order : List Text)
    → Splits h.records h.order id order
    → IsValid h
    → IsValid (drop_entry h id order)
unfolding drop_entry
drop_entry-IsValid h id order c v =
    let (d, gone) = IsDistinct-middle id c.after c.before (subst IsDistinct c.old v.distinct) in
    record {
      distinct = subst IsDistinct (sym c.new) d;
      places = λ x. ground (
        arith,
        c.new,
        c.old,
        gone,
        v.places x,
        find-erase x id h.records,
        text_eq_iff id x,
        mem_text-append x c.before c.after,
        mem_text-append x c.before (id ∷ c.after),
      );
      flagged = λ x e. ground (
        arith,
        v.flagged x,
        v.flagged id,
        find-erase x id h.records,
        find-erase x id h.cancel_flags,
        text_eq_iff id x,
      );
    }

trim_loop-IsValid :
    (fuel limit : ℕ) (h : Held) (removed : List Text)
    → IsValid h
    → IsValid (trim_loop fuel limit h removed).0
unfolding trim_loop
trim_loop-IsValid zero limit h removed v = v
trim_loop-IsValid (suc fuel) limit h removed v = elim (Bool-cases (ltb limit (length h.order))) [
  | inr fits ↦ rw (fits, trim_loop) v
  | inl over ↦ elim (Option-cases (first_removable h.records h.order)) [
    | inl n ↦ rw (over, n, trim_loop) v
    | inr ((id, order), s) ↦
        rw (over, s, trim_loop)
          (trim_loop-IsValid fuel limit (drop_entry h id order) (with_record h id removed)
            (drop_entry-IsValid h id order (first_removable-Splits h.records h.order s) v))
  ]
]

-- `trimHistory` keeps the bookkeeping.
pub trim_history-IsValid : (e : Engine) → IsValid (held e) → IsValid (held (trim_history e))
trim_history-IsValid e v =
    subst IsValid (sym (trim_history-held e)) (trim_loop-IsValid _ _ (held e) [] v)

-- A changed record keeps its place.
pub update-IsValid :
    (h : Held) (id : Text) (r : TestRecord)
    → has id h.records ≡ true
    → IsValid h
    → IsValid (record h { records = insert id r h.records })
update-IsValid h id r there v = record {
  distinct = v.distinct;
  places = λ x. ground (arith, v.places x, find-insert x id r h.records, text_eq_iff id x);
  flagged = λ x f. ground (arith, v.flagged x f, find-insert x id r h.records, text_eq_iff id x);
}
