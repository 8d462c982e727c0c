-- ===== src/Cron/Fields.antt =====
-- Which bits a field sets.
use mathlib.Core.Path.{fun_ext, subst}
use native.Mathlib.Nat.{mod-eq_of_lt, mod-eq-sub-mod}
use testhub.Base.{
  cut, ℕ, zero, suc, ◌+◌, ◌-◌, ◌%◌, ◌<◌, ◌≤◌, ◌≡◌, refl, sym, ap, ◌∙◌, arith, inl, inr, Bool-cases,
  Option-cases, ◌==◌, ltb, leb, ◌&&◌, ◌||◌, Bool, true, false, List, [], ◌∷◌, ◌++◌, All, is_empty,
  any, if◌then◌else◌, Text, codes, text_eq,
}
use testhub.StringUtil.{to_upper}
use testhub.Cron.{
  Bits, no_bits, with_bit, any_below, Outcome, ok, fail, ◌>>=◌, list_items, parse_name, scan_value,
  parse_int, Item, parse_range, parse_item, mark, mark_item, parse_items, parse_field,
}

-- Whether the part asks for `i`.
abbrev pub covers : Item → ℕ → Bool
covers it i = leb it.first i && (leb i it.last && ((i - it.first) % it.step == 0))

abbrev pub Fits : ℕ → ℕ → Item → Type 0
Fits minv maxv it = (minv ≤ it.first) × (it.last ≤ maxv) × (1 ≤ it.step)

grid_near : (v step i : ℕ) → 1 ≤ step → i < v + step → (i - v) % step ≡ i - v
grid_near v step i s h = elim (Bool-cases (leb v i)) [
  | inl e ↦ mod-eq_of_lt {n = i - v} {m = step} (ground arith)
  | inr e ↦ mod-eq_of_lt {n = i - v} {m = step} (ground arith)
]

grid_far : (v step i : ℕ) → v + step ≤ i → (i - v) % step ≡ (i - (v + step)) % step
grid_far v step i h =
    let same : i - v - step ≡ i - (v + step) = omega arith in
    mod-eq-sub-mod {n = i - v} {m = step} (omega arith) ∙ ap (λ n. n % step) same

-- A part asks for its first value, and for those that it asks for from the next one on.
grid_step :
    (v last step i : ℕ)
    → 1 ≤ step
    → v ≤ last
    → covers (record { first = v; last = last; step = step }) i
      ≡ (i == v || covers (record { first = v + step; last = last; step = step }) i)
grid_step v last step i s h = elim (Bool-cases (leb (v + step) i)) [
  | inl far ↦ let e = grid_far v step i (ground arith) in ground arith
  | inr near ↦ let e = grid_near v step i s (ground arith) in ground arith
]

mark-covers :
    (f v last step : ℕ) (bits : Bits) (i : ℕ)
    → 1 ≤ step
    → suc last - v ≤ f
    → mark f v last step bits i
      ≡ (bits i || covers (record { first = v; last = last; step = step }) i)
unfolding mark
mark-covers zero v last step bits i s h = ground arith
mark-covers (suc f) v last step bits i s h = elim (Bool-cases (leb v last)) [
  | inl more ↦
      let rest = mark-covers f (v + step) last step (with_bit bits v) i s (ground arith) in
      let split = grid_step v last step i s (ground arith) in
      rw more (rest ∙ or_step (bits i) (i == v) _ ∙ ap (λ b. bits i || b) (sym split))
  | inr done ↦ rw done (ground arith)
]
  where
    or_step : (a b c : Bool) → ((b || a) || c) ≡ (a || (b || c))
    or_step a b c = ground arith

mark_item-covers :
    (it : Item) (bits : Bits) (i : ℕ) → 1 ≤ it.step → mark_item it bits i ≡ (bits i || covers it i)
mark_item-covers it bits i s = mark-covers _ it.first it.last it.step bits i s (omega arith)

abbrev pub prepend : Item → Outcome (List Item) → Outcome (List Item)
prepend it r = r >>= λ its. ok (it ∷ its)

-- The parts, read one after the other.
unfoldable pub all_items : List Text → ℕ → ℕ → List Text → ℕ → Text → Outcome (List Item)
all_items [] minv maxv names base label = ok []
all_items (p ∷ ps) minv maxv names base label = parse_item p minv maxv names base label >>= λ it.
    prepend it (all_items ps minv maxv names base label)

abbrev pub any_covers : List Item → Bits
any_covers its i = any (λ it. covers it i) its

data Ensures {ℓ} {A : Type ℓ} (P : A → Type 0) : Outcome A → Type ℓ where
  holds : {a : A} → P a → Ensures P (ok a)
  failed : {e : Text} → Ensures P (fail e)

Ensures-bind {ℓ κ} :
    {A : Type ℓ} {B : Type κ} {P : A → Type 0} {Q : B → Type 0} {r : Outcome A} {k : A → Outcome B}
    → Ensures P r
    → ((a : A) → P a → Ensures Q (k a))
    → Ensures Q (r >>= k)
Ensures-bind (holds {a} p) h = h a p
Ensures-bind failed h = failed

Ensures-ok {ℓ} :
    {A : Type ℓ} {P : A → Type 0} {r : Outcome A} {a : A} → Ensures P r → r ≡ ok a → P a
Ensures-ok {P} (holds p) e = subst P (cc) p
Ensures-ok failed e = cc

abbrev Within : ℕ → ℕ → ℕ → Type 0
Within minv maxv v = (minv ≤ v) × (v ≤ maxv)

parse_int-Within :
    (tok : Text) (minv maxv : ℕ) (names : List Text) (base : ℕ) (label : Text)
    → Ensures (Within minv maxv) (parse_int tok minv maxv names base label)
unfolding parse_int
parse_int-Within tok minv maxv names base label =
    elim (Option-cases (parse_name (to_upper tok) names)) [
      | inr (n, e) ↦ elim (Bool-cases (ltb (n + base) minv || ltb maxv (n + base))) [
        | inl out ↦ rw (e, parse_int, out) failed
        | inr fits ↦ rw (e, parse_int, fits) (holds (ground arith, ground arith))
      ]
      | inl e ↦ elim (Bool-cases (is_empty tok)) [
        | inl b ↦ rw (e, parse_int, b) failed
        | inr b ↦ elim (Option-cases (scan_value 0 tok)) [
          | inl n ↦ rw (e, parse_int, b, n) failed
          | inr (v, n) ↦ elim (Bool-cases (ltb v minv || ltb maxv v)) [
            | inl out ↦ rw (e, parse_int, b, n, out) failed
            | inr fits ↦ rw (e, parse_int, b, n, fits) (holds (ground arith, ground arith))
          ]
        ]
      ]
    ]

abbrev SpanWithin : ℕ → ℕ → ℕ × ℕ → Type 0
SpanWithin minv maxv r = (minv ≤ r.0) × (r.1 ≤ maxv)

parse_range-SpanWithin :
    (range : Text) (minv maxv : ℕ) (names : List Text) (base : ℕ) (label : Text)
    → Ensures (SpanWithin minv maxv) (parse_range range minv maxv names base label)
unfolding parse_range
parse_range-SpanWithin range minv maxv names base label =
    elim (Bool-cases (text_eq range (codes "*"))) [
      | inl star ↦ rw star (holds (omega arith, omega arith))
      | inr other ↦ elim (Option-cases (cut b'-' range).1) [
        | inl n ↦
            rw (other, n, parse_range)
              (Ensures-bind (parse_int-Within range minv maxv names base label) (λ a h. holds h))
        | inr (right, e) ↦
            rw (other, e, parse_range)
              (Ensures-bind (parse_int-Within (cut b'-' range).0 minv maxv names base label) λ a h.
                Ensures-bind (parse_int-Within right minv maxv names base label) λ b k.
                  elim (Bool-cases (ltb b a)) [
                    | inl back ↦ rw back failed
                    | inr fine ↦ rw fine (holds (h.0, k.1))
                  ])
      ]
    ]

parse_item-Fits :
    (part : Text) (minv maxv : ℕ) (names : List Text) (base : ℕ) (label : Text)
    → Ensures (Fits minv maxv) (parse_item part minv maxv names base label)
unfolding parse_item
parse_item-Fits part minv maxv names base label = elim (Bool-cases (is_empty part)) [
  | inl b ↦ rw b failed
  | inr b ↦ elim (Option-cases (cut b'/' part).1) [
    | inl n ↦
        rw (b, n, parse_item)
          (Ensures-bind (parse_range-SpanWithin (cut b'/' part).0 minv maxv names base label)
            (λ r h. holds (h.0, h.1, omega arith)))
    | inr (t, e) ↦
        rw (b, e, parse_item)
          (Ensures-bind (parse_int-Within t 1 (maxv - minv + 1) [] 0 label) λ step k.
            Ensures-bind (parse_range-SpanWithin (cut b'/' part).0 minv maxv names base label)
              (λ r h. holds (h.0, h.1, k.0)))
  ]
]

all_items-Fits :
    (ps : List Text) (minv maxv : ℕ) (names : List Text) (base : ℕ) (label : Text)
    → Ensures (λ its. All (Fits minv maxv) its) (all_items ps minv maxv names base label)
unfolding all_items
all_items-Fits [] minv maxv names base label = holds tt
all_items-Fits (p ∷ ps) minv maxv names base label =
    Ensures-bind (parse_item-Fits p minv maxv names base label)
      λ it h. Ensures-bind (all_items-Fits ps minv maxv names base label) (λ its k. holds (h, k))

abbrev with_marks : Bits → Outcome (List Item) → Outcome Bits
with_marks bits r = r >>= λ its. ok (λ i. bits i || any_covers its i)

or_or : (a b c : Bool) → ((a || b) || c) ≡ (a || (b || c))
or_or a b c = ground arith

or_false : (b : Bool) → b ≡ (b || false)
or_false b = ground arith

with_marks-prepend :
    (it : Item) (bits : Bits) (r : Outcome (List Item))
    → 1 ≤ it.step
    → with_marks (mark_item it bits) r ≡ with_marks bits (prepend it r)
with_marks-prepend it bits (ok its) s = ap ok (
    fun_ext λ i.
      ap (λ b. b || any_covers its i) (mark_item-covers it bits i s)
      ∙ or_or (bits i) (covers it i) (any_covers its i))
with_marks-prepend it bits (fail e) s = refl

-- The loop over the parts is the parts read and then marked.
parse_items-all_items :
    (ps : List Text) (minv maxv : ℕ) (names : List Text) (base : ℕ) (label : Text) (bits : Bits)
    → parse_items ps minv maxv names base label bits
      ≡ with_marks bits (all_items ps minv maxv names base label)
unfolding parse_items all_items
parse_items-all_items [] minv maxv names base label bits = ap ok (fun_ext λ i. or_false (bits i))
parse_items-all_items (p ∷ ps) minv maxv names base label bits =
    by_item (parse_item p minv maxv names base label) (parse_item-Fits p minv maxv names base label)
      (λ it. parse_items-all_items ps minv maxv names base label (mark_item it bits))
  where
    by_item :
        (r : Outcome Item)
        → Ensures (Fits minv maxv) r
        → ((it : Item)
            → parse_items ps minv maxv names base label (mark_item it bits)
              ≡ with_marks (mark_item it bits) (all_items ps minv maxv names base label))
        → (r >>= λ it. parse_items ps minv maxv names base label (mark_item it bits))
          ≡ with_marks bits (r >>= λ it. prepend it (all_items ps minv maxv names base label))
    by_item (ok it) (holds h) ih =
        ih it ∙ with_marks-prepend it bits (all_items ps minv maxv names base label) h.2
    by_item (fail e) failed ih = refl

abbrev pub checked : Text → Bits → Outcome Bits
checked label bits = if any_below 64 bits then ok bits else fail (label ++ codes " matches nothing")

any_covers-Within :
    (its : List Item) (minv maxv i : ℕ)
    → All (Fits minv maxv) its
    → any_covers its i ≡ true
    → Within minv maxv i
any_covers-Within [] minv maxv i h e = cc
any_covers-Within (it ∷ its) minv maxv i h e = ground (arith, any_covers-Within its minv maxv i h.1)

checked-Ensures :
    (label : Text) (bits : Bits) (P : Bits → Type 0) → P bits → Ensures P (checked label bits)
checked-Ensures label bits P h = elim (Bool-cases (any_below 64 bits)) [
  | inl e ↦ rw e (holds h)
  | inr e ↦ rw e failed
]

checked-with_marks :
    (label : Text) (r : Outcome (List Item))
    → (with_marks no_bits r >>= λ bits. checked label bits)
      ≡ (r >>= λ its. checked label (any_covers its))
checked-with_marks label (ok its) = refl
checked-with_marks label (fail e) = refl

module _ (field : Text) (minv maxv : ℕ) (names : List Text) (base : ℕ) (label : Text)
    (filled : is_empty field ≡ false) where
  field_lem : parse_field field minv maxv names base label ≡ (
      all_items (list_items field) minv maxv names base label >>= λ its.
      checked label (any_covers its))
  unfolding parse_field
  field_lem =
      rw (filled, parse_items-all_items (list_items field) minv maxv names base label no_bits)
        (checked-with_marks label (all_items (list_items field) minv maxv names base label))

  -- A field is the parts between its commas: it fails as the first part that fails does, and
  -- otherwise sets exactly the bits that a part asks for, or fails if there are none below 64. The
  -- parts lie in the field's range, and so does every bit that is set.
  pub parse_field-all_items :
      (parse_field field minv maxv names base label ≡ (
        all_items (list_items field) minv maxv names base label >>= λ its.
        checked label (any_covers its)))
      × ((bits : Bits) (i : ℕ)
          → parse_field field minv maxv names base label ≡ ok bits
          → bits i ≡ true
          → (minv ≤ i) × (i ≤ maxv))
  parse_field-all_items = (
    field_lem,
    λ bits i e b.
        Ensures-ok {P = λ (bits : Bits). (j : ℕ) → bits j ≡ true → Within minv maxv j}
          (Ensures-bind (all_items-Fits (list_items field) minv maxv names base label) (λ its h.
            checked-Ensures label (any_covers its) _ (λ j. any_covers-Within its minv maxv j h)))
          (sym field_lem ∙ e) i b,
  )
