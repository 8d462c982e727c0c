-- ===== src/Scheduler/Tick.antt =====
-- A schedule is fired once in a minute.
use mathlib.Core.Path.{subst}
use testhub.Base.{
  ℕ, suc, ◌+◌, ◌≡◌, refl, sym, ap, ◌∙◌, arith, inl, inr, Bool, false, not, ◌&&◌, Bool-cases,
  Option-cases, Option, none, some, List, [], ◌∷◌, All, All-mono, Text, text_eq, text_eq_refl, Map,
  find, insert, find-insert,
}
use testhub.Base.Int.{pos, int_eq}
use testhub.Cron
use testhub.Cron.{Tm, minute_ticks}
use testhub.Scheduler.{Loaded, Scheduler, epoch_minute}
use testhub.Scheduler.Calls.{Callbacks, fire_item, is_due, tick_one, tick_all, tick}
use testhub.Scheduler.Fire.{fire_item-Places}

-- How many firings have been counted.
abbrev pub total : Scheduler → ℕ
total q = q.fires + q.skips + q.errors

module _ {S : Type 0} (calls : Callbacks S) (utc : ℕ → Option Tm) (now : ℕ) (b : Bool) where
  -- The schedule of `id`, if there is one, is not due.
  abbrev Rests : Map Loaded → Text → Type 0
  Rests items id = (l : Loaded) → find id items ≡ some l → is_due utc l now ≡ false

  fired_minute :
      (l : Loaded)
      → l.schedule.last_fired_minute ≡ pos (epoch_minute now)
      → is_due utc l now ≡ false
  unfolding is_due
  fired_minute l e = ground arith

  Rests-insert :
      (id : Text) (l : Loaded) (m : Map Loaded) (x : Text)
      → is_due utc l now ≡ false
      → Rests m x
      → Rests (insert id l m) x
  Rests-insert id l m x h r k e = elim (Bool-cases (text_eq id x)) [
    | inl same ↦
        let e' : some l ≡ some k = rw (find-insert x id l m, same) at e in
        let l' : l ≡ k = cc in subst (λ k. is_due utc k now ≡ false) l' h
    | inr other ↦ r k (rw (find-insert x id l m, other) at e)
  ]

  Rests-inserted :
      (id : Text) (l : Loaded) (m : Map Loaded)
      → is_due utc l now ≡ false
      → Rests (insert id l m) id
  Rests-inserted id l m h k e =
      let e' : some l ≡ some k = rw (find-insert id id l m, text_eq_refl id) at e in
      let l' : l ≡ k = cc in subst (λ k. is_due utc k now ≡ false) l' h

  -- One round: the order stays, the schedule of `id` rests, and one that rested rests still.
  record Round (q : Scheduler) (n : ℕ) (id : Text) (state : S × Scheduler × ℕ) : Type 0 where
    counted : total state.1 + n ≡ total q + state.2
    order : state.1.order ≡ q.order
    rests : Rests state.1.items id
    still : (x : Text) → Rests q.items x → Rests state.1.items x

  tick_one-Round :
      (w : S) (q : Scheduler) (n : ℕ) (id : Text)
      → Round q n id (tick_one calls utc now b (w, q, n) id)
  unfolding tick_one
  tick_one-Round w q n id = elim (Option-cases (find id q.items)) [
    | inl e ↦
        rw (e, tick_one)
          (record {
            counted = refl;
            order = refl;
            rests = λ l h. absurd (none-some (sym e ∙ h));
            still = λ x r. r;
          })
    | inr (item, e) ↦
        rw (e, tick_one)
          (elim (Bool-cases (is_due utc item now)) [
            | inl due ↦
                let f = fire_item-Places calls w q id item now b in
                let count : total (fire_item calls w q id item now b).rest + n ≡ total q + suc n =
                  omega (arith, f.counted) in
                let rests = fired_minute _ f.minute in
                rw due (record {
                  counted = count;
                  order = f.order;
                  rests = rw (f.items) (Rests-inserted id _ q.items rests);
                  still = λ x r. rw (f.items) (Rests-insert id _ q.items x rests r);
                })
            | inr rest ↦ rw rest (record {
              counted = refl;
              order = refl;
              rests = λ l h. same_due item l (sym e ∙ h) rest;
              still = λ x r. r;
            })
          ])
  ]
    where
      none-some : {l : Loaded} → none ≡ some l → ⊥
      none-some h = cc

      same_due :
          (a l : Loaded) → some a ≡ some l → is_due utc a now ≡ false → is_due utc l now ≡ false
      same_due a l h d = let e : a ≡ l = cc in subst (λ k. is_due utc k now ≡ false) e d

  record Rested (q : Scheduler) (n : ℕ) (ids : List Text) (state : S × Scheduler × ℕ) : Type 0 where
    counted : total state.1 + n ≡ total q + state.2
    order : state.1.order ≡ q.order
    rests : All (λ x. Rests state.1.items x) ids
    still : (x : Text) → Rests q.items x → Rests state.1.items x

  tick_all-Rested :
      (ids : List Text) (w : S) (q : Scheduler) (n : ℕ)
      → Rested q n ids (tick_all calls utc now b ids (w, q, n))
  unfolding tick_all
  tick_all-Rested [] w q n = record { counted = refl; order = refl; rests = tt; still = λ x r. r }
  tick_all-Rested (id ∷ ids) w q n =
      let state = tick_one calls utc now b (w, q, n) id in
      let r = tick_one-Round w q n id in
      let rest = tick_all-Rested ids state.0 state.1 state.2 in
      record {
        counted = omega (arith, r.counted, rest.counted);
        order = rest.order ∙ r.order;
        rests = (rest.still id r.rests, rest.rests);
        still = λ x h. rest.still x (r.still x h);
      }

  tick-Rested :
      (w : S) (q : Scheduler)
      → Rested (record q { ticks = suc q.ticks }) 0 q.order (tick calls utc w q now b)
  unfolding tick
  tick-Rested w q = tick_all-Rested q.order w (record q { ticks = suc q.ticks }) 0

module _ {S : Type 0} (calls : Callbacks S) (utc : ℕ → Option Tm) (now : ℕ) (b : Bool) where
  rest_one :
      (w : S) (q : Scheduler) (n : ℕ) (id : Text)
      → Rests calls utc now b q.items id
      → tick_one calls utc now b (w, q, n) id ≡ (w, q, n)
  unfolding tick_one
  rest_one w q n id r = elim (Option-cases (find id q.items)) [
    | inl e ↦ rw (e, tick_one) refl
    | inr (item, e) ↦ let calm = r item e in rw (e, tick_one) (rw calm refl)
  ]

  -- A round over schedules that are not due changes nothing.
  rest-All :
      (ids : List Text) (w : S) (q : Scheduler) (n : ℕ)
      → All (λ x. Rests calls utc now b q.items x) ids
      → tick_all calls utc now b ids (w, q, n) ≡ (w, q, n)
  unfolding tick_all
  rest-All [] w q n h = refl
  rest-All (id ∷ ids) w q n h = rw (rest_one w q n id h.0) (rest-All ids w q n h.1)

is_due-same :
    (utc : ℕ → Option Tm) (l : Loaded) (now now' : ℕ)
    → epoch_minute now' ≡ epoch_minute now
    → utc now' ≡ utc now
    → is_due utc l now' ≡ is_due utc l now
unfolding is_due Cron.matches
is_due-same utc l now now' m u =
    let s = l.schedule in
    ap
      (λ k. s.enabled && (not (int_eq s.last_fired_minute (pos k)) && Cron.matches utc l.expr now'))
      m
    ∙ ap (λ hit. s.enabled && (not (int_eq s.last_fired_minute (pos (epoch_minute now))) && hit))
        (same_fields (utc now') (utc now) u)
  where
    same_fields :
        (a b : Option Tm)
        → a ≡ b
        → let x : Bool = elim a [ none ↦ false | some t ↦ Cron.matches_tm l.expr t ] in
          let y : Bool = elim b [ none ↦ false | some t ↦ Cron.matches_tm l.expr t ] in x ≡ y
    same_fields a b e =
        ap (λ o. let x : Bool = elim o [ none ↦ false | some t ↦ Cron.matches_tm l.expr t ] in x) e

-- A tick counts each schedule that it fires once, as a firing, a skip or an error, and returns how
-- many there were. A second tick in the same minute, if the calendar gives both time points the same
-- fields, fires nothing: it only counts itself.
pub tick_again :
    {S : Type 0} (calls : Callbacks S) (utc : ℕ → Option Tm) (w : S) (q : Scheduler) (now now' : ℕ)
    (b b' : Bool)
    → epoch_minute now' ≡ epoch_minute now
    → utc now' ≡ utc now
    → let (w1, q1, fired) = tick calls utc w q now b in
      (total q1 ≡ total q + fired)
      × (tick calls utc w1 q1 now' b' ≡ (w1, record q1 { ticks = suc q1.ticks }, 0))
unfolding tick
tick_again calls utc w q now now' b b' m u =
    let state = tick calls utc w q now b in
    let r = tick-Rested calls utc now b w q in
    let count : total state.1 ≡ total q + state.2 = omega (arith, r.counted) in
    let again : Scheduler = record (state.1) { ticks = suc state.1.ticks } in
    let later = All-mono _ _ q.order (λ x h l e. is_due-same utc l now now' m u ∙ h l e) r.rests in
    (
      count,
      ap (λ ids. tick_all calls utc now' b' ids (state.0, again, 0)) r.order
          ∙ rest-All calls utc now' b' q.order state.0 again 0 later,
    )
