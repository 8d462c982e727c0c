-- ===== src/Cron.antt =====
-- src/util/cron.h, class CronExpr.
--
-- A mask of 64 bits is the function that says which bits are set; every shift is by less than 64. A
-- time point is a number of nanoseconds, not before the epoch, and `gmtime_r` a parameter.
pub mod Fields
pub mod Next
use mathlib.Core.Option
use testhub.Base
use testhub.Base.{
  ℕ, zero, suc, ◌+◌, ◌-◌, ◌*◌, ◌/◌, ◌==◌, ltb, leb, ◌&&◌, ◌||◌, not, Bool, true, false, List, [],
  ◌∷◌, ◌++◌, Option, none, some, is_empty, length, any, if◌then◌else◌, Text, cut, codes, text_eq,
  to_string,
}
use testhub.StringUtil.{is_space, is_digit, trim, to_upper}

abbrev pub Bits : Type 0
Bits = ℕ → Bool

abbrev pub no_bits : Bits
no_bits i = false

-- `bits | (1ull << v)`.
abbrev pub with_bit : Bits → ℕ → Bits
with_bit bits v i = i == v || bits i

abbrev pub bit : Bits → ℕ → Bool
bit bits v = ltb v 64 && bits v

-- Whether one of the bits below `n` is set: `bits != 0` for 64.
unfoldable pub any_below : ℕ → Bits → Bool
any_below zero bits = false
any_below (suc n) bits = bits n || any_below n bits

pub data Outcome {ℓ} (A : Type ℓ) : Type ℓ where
  ok : A → Outcome A
  fail : Text → Outcome A

infixl 5 ◌>>=◌
abbrev pub ◌>>=◌ {ℓ κ} : {A : Type ℓ} {B : Type κ} → Outcome A → (A → Outcome B) → Outcome B
ok a >>= k = k a
fail e >>= k = fail e

abbrev pub months : List Text
months =
    codes "JAN"
    ∷ codes "FEB"
    ∷ codes "MAR"
    ∷ codes "APR"
    ∷ codes "MAY"
    ∷ codes "JUN"
    ∷ codes "JUL"
    ∷ codes "AUG"
    ∷ codes "SEP"
    ∷ codes "OCT"
    ∷ codes "NOV"
    ∷ codes "DEC"
    ∷ []

abbrev pub weekdays : List Text
weekdays =
    codes "SUN"
    ∷ codes "MON"
    ∷ codes "TUE"
    ∷ codes "WED"
    ∷ codes "THU"
    ∷ codes "FRI"
    ∷ codes "SAT"
    ∷ []

-- The empty text stands for an alias that is not known.
unfoldable pub expand_alias : Text → Text
expand_alias [] = []
expand_alias (c ∷ s) =
    let raw = c ∷ s in
    if not (c == b'@')
    then raw
    else if text_eq raw (codes "@yearly") || text_eq raw (codes "@annually")
    then codes "0 0 1 1 *"
    else if text_eq raw (codes "@monthly")
    then codes "0 0 1 * *"
    else if text_eq raw (codes "@weekly")
    then codes "0 0 * * 0"
    else if text_eq raw (codes "@daily") || text_eq raw (codes "@midnight")
    then codes "0 0 * * *"
    else if text_eq raw (codes "@hourly")
    then codes "0 * * * *"
    else []

-- The loop of `splitWs`, with the word so far.
unfoldable pub split_ws : Text → Text → List Text
split_ws [] cur = if is_empty cur then [] else cur ∷ []
split_ws (c ∷ s) cur =
    let ended = split_ws s [] in
    let more = split_ws s (cur ++ (c ∷ [])) in
    if is_space c then (if is_empty cur then ended else cur ∷ ended) else more

-- The parts between the commas.
unfoldable pub list_items : Text → List Text
list_items [] = [] ∷ []
list_items (d ∷ s) = elim (list_items s) [
  | [] ↦ (d ∷ []) ∷ []
  | p ∷ ps ↦ if d == b',' then [] ∷ p ∷ ps else (d ∷ p) ∷ ps
]

unfoldable pub parse_name : Text → List Text → Option ℕ
parse_name u [] = none
parse_name u (n ∷ names) = if text_eq u n then some 0 else Option.map suc (parse_name u names)

-- The digits of a token; `none` at a byte that is none. The loop ends at a value above 99.
unfoldable pub scan_value : ℕ → Text → Option ℕ
scan_value v [] = some v
scan_value v (c ∷ s) =
    let v' = v * 10 + (c - b'0') in
    let rest = scan_value v' s in if is_digit c then (if ltb 99 v' then some v' else rest) else none

-- `names` is empty where the source passes no table.
unfoldable pub parse_int : Text → ℕ → ℕ → List Text → ℕ → Text → Outcome ℕ
parse_int tok minv maxv names base label = elim (parse_name (to_upper tok) names) [
  | some n ↦
      if ltb (n + base) minv || ltb maxv (n + base)
      then fail (label ++ codes " name out of range")
      else ok (n + base)
  | none ↦ if is_empty tok then fail (label ++ codes " is empty") else elim (scan_value 0 tok) [
    | none ↦ fail (label ++ (codes " has invalid token '" ++ (tok ++ codes "'")))
    | some v ↦
        if ltb v minv || ltb maxv v
        then fail (
            label
            ++ (codes " value "
                ++ (tok
                    ++ (codes " out of range "
                        ++ (to_string minv ++ (codes "-" ++ to_string maxv))))))
        else ok v
  ]
]

-- What one part of a list asks for: from, to, and how far apart.
pub record Item : Type 0 where
  pub first : ℕ
  pub last : ℕ
  pub step : ℕ

-- The range a part gives, without its step.
unfoldable pub parse_range : Text → ℕ → ℕ → List Text → ℕ → Text → Outcome (ℕ × ℕ)
parse_range range minv maxv names base label =
    if text_eq range (codes "*") then ok (minv, maxv) else elim (cut b'-' range).1 [
      | none ↦ parse_int range minv maxv names base label >>= λ a. ok (a, a)
      | some right ↦ parse_int (cut b'-' range).0 minv maxv names base label >>= λ a.
          parse_int right minv maxv names base label >>= λ b.
          (if ltb b a then fail (label ++ codes " range is reversed") else ok (a, b))
    ]

unfoldable pub parse_item : Text → ℕ → ℕ → List Text → ℕ → Text → Outcome Item
parse_item part minv maxv names base label =
    if is_empty part
    then fail (label ++ codes " has an empty list item")
    else (elim (cut b'/' part).1 [
      | none ↦ ok 1
      | some s ↦ parse_int s 1 (maxv - minv + 1) [] 0 label
    ]
        >>= λ step. parse_range (cut b'/' part).0 minv maxv names base label >>= λ (a, b).
            ok (record { first = a; last = b; step = step }))

-- `for (int v = begin; v <= end; v += step) bits |= (1ull << v);`, for at most as many rounds.
unfoldable pub mark : ℕ → ℕ → ℕ → ℕ → Bits → Bits
mark zero v last step bits = bits
mark (suc f) v last step bits =
    let more = mark f (v + step) last step (with_bit bits v) in if leb v last then more else bits

abbrev pub mark_item : Item → Bits → Bits
mark_item it bits = mark (suc it.last - it.first) it.first it.last it.step bits

unfoldable pub parse_items : List Text → ℕ → ℕ → List Text → ℕ → Text → Bits → Outcome Bits
parse_items [] minv maxv names base label bits = ok bits
parse_items (p ∷ ps) minv maxv names base label bits =
    parse_item p minv maxv names base label >>= λ it.
    parse_items ps minv maxv names base label (mark_item it bits)

unfoldable pub parse_field : Text → ℕ → ℕ → List Text → ℕ → Text → Outcome Bits
parse_field field minv maxv names base label =
    if is_empty field
    then fail (label ++ codes " is empty")
    else (parse_items (list_items field) minv maxv names base label no_bits >>= λ bits.
        (if any_below 64 bits then ok bits else fail (label ++ codes " matches nothing")))

pub record CronExpr : Type 0 where
  pub source : Text
  pub minute : Bits
  pub hour : Bits
  pub dom : Bits
  pub month : Bits
  pub dow : Bits
  pub dom_all : Bool
  pub dow_all : Bool

-- 0 and 7 are both Sunday.
abbrev pub both_sundays : Bits → Bits
both_sundays bits =
    let b = if bits 7 then with_bit bits 0 else bits in if b 0 then with_bit b 7 else b

unfoldable pub parse_fields : Text → Text → Text → Text → Text → Text → Outcome CronExpr
parse_fields raw f0 f1 f2 f3 f4 = parse_field f0 0 59 [] 0 (codes "minute") >>= λ minute.
    parse_field f1 0 23 [] 0 (codes "hour") >>= λ hour.
    parse_field f2 1 31 [] 0 (codes "day-of-month") >>= λ dom.
    parse_field f3 1 12 months 1 (codes "month") >>= λ month.
    parse_field f4 0 7 weekdays 0 (codes "day-of-week") >>= λ dow. ok (record {
      source = raw;
      minute = minute;
      hour = hour;
      dom = dom;
      month = month;
      dow = both_sundays dow;
      dom_all = text_eq f2 (codes "*");
      dow_all = text_eq f4 (codes "*");
    })

abbrev wrong_count : ℕ → Outcome CronExpr
wrong_count n =
    fail (codes "cron must have 5 fields (minute hour day month weekday), got " ++ to_string n)

unfoldable pub with_fields : Text → List Text → Outcome CronExpr
with_fields raw (a ∷ b ∷ c ∷ d ∷ e ∷ []) = parse_fields raw a b c d e
with_fields raw fields = wrong_count (length fields)

unfoldable pub parse : Text → Outcome CronExpr
parse text =
    let raw = trim text in
    let expanded = expand_alias raw in
    if is_empty raw
    then fail (codes "cron expression is empty")
    else if is_empty expanded
    then fail (codes "unknown cron alias: " ++ raw)
    else with_fields raw (split_ws expanded [])

pub record Tm : Type 0 where
  pub min : ℕ
  pub hour : ℕ
  pub mday : ℕ
  pub mon : ℕ
  pub wday : ℕ

unfoldable pub matches_tm : CronExpr → Tm → Bool
matches_tm c t =
    if not (bit c.minute t.min) || (not (bit c.hour t.hour) || not (bit c.month (t.mon + 1)))
    then false
    else if c.dom_all && c.dow_all
    then true
    else if c.dom_all
    then bit c.dow t.wday
    else if c.dow_all
    then bit c.dom t.mday
    else bit c.dom t.mday || bit c.dow t.wday

abbrev pub minute_ticks : ℕ
minute_ticks = 60 * 1000000000

-- How many minutes `nextAfter` tries.
abbrev pub max_minutes : ℕ
max_minutes = 366 * 24 * 60

module _ (utc : ℕ → Option Tm) where
  unfoldable pub matches : CronExpr → ℕ → Bool
  matches c tp = elim (utc tp) [ none ↦ false | some t ↦ matches_tm c t ]

  -- The loop of `nextAfter`: the first of `n` minutes that matches, or the zero time point.
  unfoldable pub search_minutes : ℕ → CronExpr → ℕ → ℕ
  search_minutes zero c cursor = 0
  search_minutes (suc n) c cursor =
      let later = search_minutes n c (cursor + minute_ticks) in
      if matches c cursor then cursor else later

  unfoldable pub next_after : CronExpr → ℕ → ℕ
  next_after c tp = search_minutes max_minutes c (tp / minute_ticks * minute_ticks + minute_ticks)
