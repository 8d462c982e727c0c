-- ===== src/Engine/History/Trim.antt =====
-- `trimHistory` brings the history down to its limit as far as that is possible, and takes away
-- nothing that is still to run.
use mathlib.Core.Path.{subst}
use testhub.Base.{
  ℕ, zero, suc, ◌≤◌, ◌≡◌, refl, sym, ap, ◌∙◌, arith, ◌⊎◌, inl, inr, true, false, List, [], ◌∷◌,
  ◌++◌, none, some, length, length-append, ltb, All, Bool-cases, Option-cases, Text, text_eq_iff,
  mem_text, mem_text-append, Map, find, find-erase,
}
use testhub.Engine.{TestRecord, Engine, store_remove_all, store_remove}
use testhub.Engine.History.{
  Held, held, is_removable, first_removable, drop_entry, with_record, trim_loop, trim_history,
}

-- The first removable id: nothing before it can be removed.
pub record Splits (records : Map TestRecord) (ids : List Text) (id : Text) (rest : List Text)
    : Type 0 where
  pub before : List Text
  pub after : List Text
  pub old : ids ≡ before ++ (id ∷ after)
  pub new : rest ≡ before ++ after
  pub kept : All (λ x. is_removable records x ≡ false) before
  pub removable : is_removable records id ≡ true

pub first_removable-Splits :
    (records : Map TestRecord) (ids : List Text) {id : Text} {rest : List Text}
    → first_removable records ids ≡ some (id, rest)
    → Splits records ids id rest
unfolding first_removable
first_removable-Splits records [] h = cc
first_removable-Splits records (x ∷ xs) h = elim (Bool-cases (is_removable records x)) [
  | inl e ↦ record {
    before = [];
    after = xs;
    old = ground arith;
    new = ground arith;
    kept = tt;
    removable = ground arith;
  }
  | inr e ↦ elim (Option-cases (first_removable records xs)) [
    | inl n ↦ absurd (ground arith)
    | inr ((found, others), some_found) ↦
        let c = first_removable-Splits records xs some_found in
        record {
          before = x ∷ c.before;
          after = c.after;
          old = ground (arith, c.old);
          new = ground (arith, c.new);
          kept = (e, c.kept);
          removable = ground (arith, c.removable);
        }
  ]
]

first_removable-none :
    (records : Map TestRecord) (ids : List Text)
    → first_removable records ids ≡ none
    → All (λ x. is_removable records x ≡ false) ids
unfolding first_removable
first_removable-none records [] h = tt
first_removable-none records (x ∷ xs) h = ground (arith, first_removable-none records xs)

Splits-length :
    (records : Map TestRecord) (ids : List Text) (id : Text) (rest : List Text)
    → Splits records ids id rest
    → length ids ≡ suc (length rest)
Splits-length records ids id rest c = omega (
  arith,
  ap length c.old,
  ap length c.new,
  length-append c.before (id ∷ c.after),
  length-append c.before c.after,
)

-- The loop ends below the limit, or where nothing can be removed.
abbrev pub Trimmed : ℕ → Held → Type 0
Trimmed limit h = (length h.order ≤ limit) ⊎ All (λ id. is_removable h.records id ≡ false) h.order

trim_loop-Trimmed :
    (fuel limit : ℕ) (h : Held) (removed : List Text)
    → length h.order ≤ fuel
    → Trimmed limit (trim_loop fuel limit h removed).0
unfolding trim_loop
trim_loop-Trimmed zero limit h removed l = inl (omega arith)
trim_loop-Trimmed (suc fuel) limit h removed l = elim (Bool-cases (ltb limit (length h.order))) [
  | inr fits ↦ rw (fits, trim_loop) (inl (ground arith))
  | inl over ↦ elim (Option-cases (first_removable h.records h.order)) [
    | inl n ↦ rw (over, n, trim_loop) (inr (first_removable-none h.records h.order n))
    | inr ((id, order), s) ↦
        let c = first_removable-Splits h.records h.order s in
        rw (over, s, trim_loop)
          (trim_loop-Trimmed fuel limit (drop_entry h id order) (with_record h id removed)
            (unfold drop_entry in omega (arith, Splits-length h.records h.order id order c)))
  ]
]

-- A record that is there and not terminal, with its place in the order.
pub record Keeps (g h : Held) : Type 0 where
  pub same_record :
      (id : Text) → is_removable g.records id ≡ false → find id h.records ≡ find id g.records
  pub same_place :
      (id : Text) → is_removable g.records id ≡ false → mem_text id h.order ≡ mem_text id g.order

is_removable-find :
    (r s : Map TestRecord) (id : Text)
    → find id s ≡ find id r
    → is_removable s id ≡ is_removable r id
unfolding is_removable
is_removable-find r s id e = rw (e, is_removable) refl

Keeps-trans : {f g h : Held} → Keeps f g → Keeps g h → Keeps f h
Keeps-trans {f} {g} {h} k l = record {
  same_record = λ id r. l.same_record id (still id r) ∙ k.same_record id r;
  same_place = λ id r. l.same_place id (still id r) ∙ k.same_place id r;
}
  where
    still : (id : Text) → is_removable f.records id ≡ false → is_removable g.records id ≡ false
    still id r = is_removable-find f.records g.records id (k.same_record id r) ∙ r

drop_entry-Keeps :
    (h : Held) (id : Text) (order : List Text)
    → Splits h.records h.order id order
    → Keeps h (drop_entry h id order)
unfolding drop_entry
drop_entry-Keeps h id order c = record {
  same_record = λ x r. find-erase x id h.records ∙ (ground (arith, text_eq_iff id x, c.removable));
  same_place = λ x r.
      rw
        (
          c.new,
          c.old,
          mem_text-append x c.before c.after,
          mem_text-append x c.before (id ∷ c.after),
        )
        (ground (arith, text_eq_iff id x, c.removable));
}

trim_loop-Keeps :
    (fuel limit : ℕ) (h : Held) (removed : List Text) → Keeps h (trim_loop fuel limit h removed).0
unfolding trim_loop
trim_loop-Keeps zero limit h removed = record {
  same_record = λ id r. refl;
  same_place = λ id r. refl;
}
trim_loop-Keeps (suc fuel) limit h removed = elim (Bool-cases (ltb limit (length h.order))) [
  | inr fits ↦
      rw (fits, trim_loop) (record { same_record = λ id r. refl; same_place = λ id r. refl })
  | inl over ↦ elim (Option-cases (first_removable h.records h.order)) [
    | inl n ↦
        rw (over, n, trim_loop) (record { same_record = λ id r. refl; same_place = λ id r. refl })
    | inr ((id, order), s) ↦
        rw (over, s, trim_loop)
          (Keeps-trans (drop_entry-Keeps h id order (first_removable-Splits h.records h.order s))
            (trim_loop-Keeps fuel limit (drop_entry h id order) (with_record h id removed)))
  ]
]

pub store_remove-held : (e : Engine) (id : Text) → held (store_remove e id) ≡ held e
unfolding store_remove
store_remove-held e id = ground arith

pub store_remove_all-held : (e : Engine) (ids : List Text) → held (store_remove_all e ids) ≡ held e
unfolding store_remove_all
store_remove_all-held e [] = refl
store_remove_all-held e (id ∷ ids) =
    store_remove_all-held (store_remove e id) ids ∙ store_remove-held e id

pub trim_history-held :
    (e : Engine)
    → held (trim_history e) ≡ (trim_loop (length e.order) e.history_limit (held e) []).0
unfolding trim_history
trim_history-held e = store_remove_all-held _ _

-- After `trimHistory` the history is within its limit, or every id left in the order belongs to a
-- test that is queued or running.
pub trim_history-Trimmed : (e : Engine) → Trimmed e.history_limit (held (trim_history e))
trim_history-Trimmed e =
    subst (Trimmed e.history_limit) (sym (trim_history-held e))
      (trim_loop-Trimmed (length e.order) e.history_limit (held e) [] (omega arith))

-- A record that is there and not terminal stays as it is, and its id stays in the order.
pub trim_history-Keeps : (e : Engine) → Keeps (held e) (held (trim_history e))
trim_history-Keeps e =
    rw (trim_history-held e) (trim_loop-Keeps (length e.order) e.history_limit (held e) [])
