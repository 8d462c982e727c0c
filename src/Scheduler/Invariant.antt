-- ===== src/Scheduler/Invariant.antt =====
-- The order lists exactly the schedules there are, each once and under its own id.
use mathlib.Core.Path.{subst}
use testhub.Base.{
  codes, three_digits, ◌%◌, ◌^◌, ℕ, zero, suc, ◌+◌, ◌≡◌, refl, sym, ap, ◌∙◌, arith, inl, inr, Bool,
  true, false, not, Bool-cases, Option-cases, Option, none, some, ◌⊎◌, List, [], ◌∷◌, ◌++◌,
  is_empty, keep, Text, text_eq, text_eq_iff, mem_text, mem_text-append, mem_text-keep, IsDistinct,
  IsDistinct-concat, IsDistinct-keep, Map, has, find, insert, erase, find-insert, find-erase,
}
use testhub.Cron
use testhub.Cron.{CronExpr, Tm, Outcome, ok, fail}
use testhub.Engine.{is_safe_id}
use testhub.Scheduler.{Schedule, Loaded, Scheduler, save_one, delete_file}
use testhub.Scheduler.Calls.{Callbacks, fire_item, is_due, tick_one, tick_all, fire_now}
use testhub.Scheduler.Store.{
  generate_id, create_item, create, patch_item, update_parsed, update, remove,
}
use testhub.Scheduler.Fire.{fire_item-Places, save_one_lem}

pub record IsValid (items : Map Loaded) (order : List Text) : Type 0 where
  pub distinct : IsDistinct order
  pub places : (x : Text) → mem_text x order ≡ has x items
  pub keyed : (x : Text) (l : Loaded) → find x items ≡ some l → l.schedule.id ≡ x

abbrev pub Valid : Scheduler → Type 0
Valid q = IsValid q.items q.order

IsValid-same :
    {m m' : Map Loaded} {order order' : List Text}
    → m' ≡ m
    → order' ≡ order
    → IsValid m order
    → IsValid m' order'
IsValid-same {m} {m'} {order} {order'} p q v =
    subst (λ x. IsValid x order') (sym p) (subst (λ o. IsValid m o) (sym q) v)

keyed-insert :
    (m : Map Loaded) (id : Text) (l : Loaded)
    → l.schedule.id ≡ id
    → ((x : Text) (k : Loaded) → find x m ≡ some k → k.schedule.id ≡ x)
    → (x : Text) (k : Loaded) → find x (insert id l m) ≡ some k
    → k.schedule.id ≡ x
keyed-insert m id l own old x k e = elim (Bool-cases (text_eq id x)) [
  | inl same ↦
      let e' : some l ≡ some k = rw (find-insert x id l m, same) at e in
      let l' : l ≡ k = cc in
      ap (λ (k : Loaded). k.schedule.id) (sym l') ∙ own ∙ (text_eq_iff id x).0 same
  | inr other ↦ old x k (rw (find-insert x id l m, other) at e)
]

-- A schedule that is there is replaced.
put-IsValid :
    {m : Map Loaded} {order : List Text} (id : Text) (l : Loaded)
    → IsValid m order
    → has id m ≡ true
    → l.schedule.id ≡ id
    → IsValid (insert id l m) order
put-IsValid {m} id l v there own = record {
  distinct = v.distinct;
  places = λ x. ground (arith, v.places x, find-insert x id l m, text_eq_iff id x, there);
  keyed = keyed-insert m id l own v.keyed;
}

-- A schedule with a new id goes to the end.
pub add-IsValid :
    {m : Map Loaded} {order : List Text} (id : Text) (l : Loaded)
    → IsValid m order
    → has id m ≡ false
    → l.schedule.id ≡ id
    → IsValid (insert id l m) (order ++ (id ∷ []))
add-IsValid {m} {order} id l v free own = record {
  distinct = IsDistinct-concat id order (v.places id ∙ free) v.distinct;
  places =
      λ x. mem_text-append x order (id ∷ []) ∙ ground (arith, v.places x, find-insert x id l m);
  keyed = keyed-insert m id l own v.keyed;
}

none-some : {l : Loaded} → none ≡ some l → ⊥
none-some h = cc

drop-IsValid :
    {m : Map Loaded} {order : List Text} (id : Text)
    → IsValid m order
    → IsValid (erase id m) (keep (λ x. not (text_eq x id)) order)
drop-IsValid {m} {order} id v = record {
  distinct = IsDistinct-keep _ order v.distinct;
  places = λ x.
      mem_text-keep (λ x. not (text_eq x id)) x order
      ∙ ground (arith, v.places x, find-erase x id m, text_eq_iff x id, text_eq_iff id x);
  keyed = λ x l e. elim (Bool-cases (text_eq id x)) [
    | inl same ↦ absurd (none-some (rw (find-erase x id m, same) at e))
    | inr other ↦ v.keyed x l (rw (find-erase x id m, other) at e)
  ];
}

save-Valid : (q : Scheduler) (item : Loaded) (b : Bool) → Valid q → Valid (save_one q item b)
save-Valid q item b v = let saved = save_one_lem q item b in IsValid-same saved.0 saved.1 v

delete_file_lem :
    (q : Scheduler) (id : Text)
    → ((delete_file q id).items ≡ q.items) × ((delete_file q id).order ≡ q.order)
unfolding delete_file
delete_file_lem q id = ground arith

create_item-Valid :
    (q : Scheduler) (given : Schedule) (expr : CronExpr) (id : Text) (now : ℕ) (b : Bool)
    → Valid q
    → has id q.items ≡ false
    → Valid (create_item q given expr id now b).0
unfolding create_item
create_item-Valid q given expr id now b v free = save-Valid _ _ b (add-IsValid id _ v free refl)

-- A generated id is free, and only the counter moves.
generate_id-free :
    (stamp : ℕ → Text) (fuel : ℕ) (q : Scheduler) (tp : ℕ) {q' : Scheduler} {id : Text}
    → generate_id stamp fuel q tp ≡ some (q', id)
    → (has id q.items ≡ false) × (q'.items ≡ q.items) × (q'.order ≡ q.order)
unfolding generate_id
generate_id-free stamp zero q tp h = cc
generate_id-free stamp (suc fuel) q tp {q'} {id} h =
    let counter = (q.id_counter + 1) % 2 ^ 32 in
    let found = codes "sched-" ++ (stamp tp ++ (codes "-" ++ three_digits (counter % 1000))) in
    elim (Bool-cases (has found q.items)) [
      | inl taken ↦
          generate_id-free stamp fuel (record q { id_counter = counter }) tp
            (rw (taken, generate_id) at h)
      | inr free ↦
          let e = rw (free, generate_id) at h in
          let same : found ≡ id = cc in
          let left : record q { id_counter = counter } ≡ q' = cc in
          (
            subst (λ x. has x q.items ≡ false) same free,
            sym (ap (λ (p : Scheduler). p.items) left),
            sym (ap (λ (p : Scheduler). p.order) left),
          )
    ]

pub remove-Valid : (q : Scheduler) (id : Text) → Valid q → Valid (remove q id).0
unfolding remove
remove-Valid q id v = elim (Option-cases (find id q.items)) [
  | inl e ↦ rw (e, remove) v
  | inr (l, e) ↦
      rw (e, remove)
        (let d =
            delete_file_lem
              (record q {
                items = erase id q.items;
                order = keep (λ x. not (text_eq x id)) q.order;
              })
              id in
          IsValid-same d.0 d.1 (drop-IsValid id v))
]

module _ {S : Type 0} (calls : Callbacks S) (utc : ℕ → Option Tm) (now : ℕ) (b : Bool) where
  fire_item-Valid :
      (w : S) (q : Scheduler) (id : Text) (item : Loaded)
      → find id q.items ≡ some item
      → Valid q
      → Valid (fire_item calls w q id item now b).rest
  fire_item-Valid w q id item e v =
      let f = fire_item-Places calls w q id item now b in
      let own = f.id_kept ∙ v.keyed id item e in
      IsValid-same f.items f.order
        (put-IsValid id (fire_item calls w q id item now b).item v (rw e refl) own)

  tick_one-Valid :
      (w : S) (q : Scheduler) (n : ℕ) (id : Text)
      → Valid q
      → Valid (tick_one calls utc now b (w, q, n) id).1
  unfolding tick_one
  tick_one-Valid w q n id v = elim (Option-cases (find id q.items)) [
    | inl e ↦ rw (e, tick_one) v
    | inr (item, e) ↦
        rw (e, tick_one)
          (elim (Bool-cases (is_due utc item now)) [
            | inl due ↦ rw due (fire_item-Valid w q id item e v)
            | inr rest ↦ rw rest v
          ])
  ]

  pub tick_all-Valid :
      (ids : List Text) (w : S) (q : Scheduler) (n : ℕ)
      → Valid q
      → Valid (tick_all calls utc now b ids (w, q, n)).1
  unfolding tick_all
  tick_all-Valid [] w q n v = v
  tick_all-Valid (id ∷ ids) w q n v =
      let state = tick_one calls utc now b (w, q, n) id in
      tick_all-Valid ids state.0 state.1 state.2 (tick_one-Valid w q n id v)

  pub fire_now-Valid :
      (w : S) (q : Scheduler) (id : Text) → Valid q → Valid (fire_now calls w q id now b).1
  unfolding fire_now
  fire_now-Valid w q id v = elim (Option-cases (find id q.items)) [
    | inl e ↦ rw (e, fire_now) v
    | inr (item, e) ↦ rw (e, fire_now) (fire_item-Valid w q id item e v)
  ]

Outcome-cases {ℓ} :
    {A : Type ℓ} (o : Outcome A) → ((e : Text) × (o ≡ fail e)) ⊎ ((a : A) × (o ≡ ok a))
Outcome-cases (fail e) = inl (e, refl)
Outcome-cases (ok a) = inr (a, refl)

module _ (q : Scheduler) (v : Valid q) where
  -- A success gives the scheduler that was made.
  made :
      {A : Type 0} {p q' : Scheduler} {a b : A}
      → ◌≡◌ {A = Option (Scheduler × A)} (some (p, a)) (some (q', b))
      → Valid p
      → Valid q'
  made {p} {q'} h w = let same : p ≡ q' = cc in subst Valid same w

  pub create-Valid :
      (stamp : ℕ → Text) (fuel : ℕ) (given : Schedule) (now : ℕ) (b : Bool) {q' : Scheduler}
      {r : Schedule ⊎ Text}
      → create stamp fuel q given now b ≡ some (q', r)
      → Valid q'
  unfolding create
  create-Valid stamp fuel given now b h = elim (Outcome-cases (Cron.parse given.cron)) [
    | inl (e, p) ↦ made (rw (p, create) at h) v
    | inr (expr, p) ↦ elim (Bool-cases (is_empty given.id)) [
      | inl unnamed ↦ elim (Option-cases (generate_id stamp fuel q now)) [
        | inl n ↦ absurd (nothing (rw (p, create, unnamed, n) at h))
        | inr (found, g) ↦
            let (free, items, order) = generate_id-free stamp fuel q now g in
            made (rw (p, create, unnamed, g) at h) (
              create_item-Valid found.0 given expr found.1 now b (IsValid-same items order v)
                (rw items free))
      ]
      | inr own ↦ elim (Bool-cases (has given.id q.items)) [
        | inl taken ↦ made (rw (p, create, own, taken) at h) v
        | inr free ↦ elim (Bool-cases (not (is_safe_id given.id))) [
          | inl unsafe ↦ made (rw (p, create, own, free, unsafe) at h) v
          | inr safe ↦
              made (rw (p, create, own, free, safe) at h)
                (create_item-Valid q given expr given.id now b v free)
        ]
      ]
    ]
  ]
    where
      nothing : {A : Type 0} {a : A} → none ≡ some a → ⊥
      nothing h = cc

  patch_item_id :
      (l : Loaded) (patch : Schedule) (parsed : Option CronExpr) (has_request : Bool) (now : ℕ)
      → (patch_item l patch parsed has_request now).schedule.id ≡ l.schedule.id
  unfolding patch_item
  patch_item_id l patch none has_request now = refl
  patch_item_id l patch (some expr) has_request now = ground arith

  update_parsed-Valid :
      (id : Text) (patch : Schedule) (parsed : Option CronExpr) (has_request : Bool) (now : ℕ)
      (b : Bool)
      → Valid (update_parsed q id patch parsed has_request now b).0
  unfolding update_parsed
  update_parsed-Valid id patch parsed has_request now b = elim (Option-cases (find id q.items)) [
    | inl n ↦ rw (n, update_parsed) v
    | inr (l, e) ↦
        rw (e, update_parsed)
          (save-Valid _ _ b (
            put-IsValid id (patch_item l patch parsed has_request now) v (rw e refl)
              (patch_item_id l patch parsed has_request now ∙ v.keyed id l e)))
  ]

  pub update-Valid :
      (id : Text) (patch : Schedule) (has_request : Bool) (now : ℕ) (b : Bool)
      → Valid (update q id patch has_request now b).0
  unfolding update
  update-Valid id patch has_request now b = elim (Bool-cases (is_empty patch.cron)) [
    | inl n ↦ rw n (update_parsed-Valid id patch none has_request now b)
    | inr c ↦ elim (Outcome-cases (Cron.parse patch.cron)) [
      | inl (e, p) ↦ rw (c, p, update) v
      | inr (expr, p) ↦
          rw (c, p, update) (update_parsed-Valid id patch (some expr) has_request now b)
    ]
  ]
