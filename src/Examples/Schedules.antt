-- ===== src/Examples/Schedules.antt =====
-- Cron expressions. The calendar of the examples begins on Thursday the first and has no other month.
use testhub.Base.{
  cut, ℕ, ◌+◌, ◌*◌, ◌/◌, ◌%◌, ◌<◌, ◌≤◌, ◌≡◌, refl, true, false, Bool, [], Option, some, Text, codes,
  to_string, text_eq,
}
use testhub.StringUtil.{is_space, is_digit, trim_start, trim_end, to_upper, upper_byte}
use testhub.Cron.{
  Bits, Outcome, ok, fail, ◌>>=◌, CronExpr, Tm, parse, expand_alias, split_ws, parse_fields,
  parse_field, parse_items, parse_item, parse_range, parse_int, parse_name, scan_value, list_items,
  any_below, mark, with_fields, matches, matches_tm, next_after, minute_ticks, max_minutes,
}
use testhub.Cron.Fields.{all_items, any_covers, checked, parse_field-all_items}
use testhub.Cron.Next.{IsFirst, next_minute, next_after-IsFirst}

abbrev pub calendar : ℕ → Option Tm
calendar tp = some (record {
  min = tp / minute_ticks % 60;
  hour = tp / minute_ticks / 60 % 24;
  mday = tp / minute_ticks / 1440 + 1;
  mon = 0;
  wday = (tp / minute_ticks / 1440 + 4) % 7;
})

-- Whether an expression matches at a minute of the calendar.
abbrev hits : Text → ℕ → Outcome Bool
hits text minute = parse text >>= λ c. ok (matches calendar c (minute * minute_ticks))

-- At 9:20 on a Friday, and at 9:21; on a Sunday, which is day 7 and the fourth of the calendar; and
-- a range that is reversed.
hits_lem :
    (hits (codes "*/20 9-10 * * MON-fri") (1440 + 560) ≡ ok true)
    × (hits (codes "*/20 9-10 * * MON-fri") (1440 + 561) ≡ ok false)
    × (hits (codes " 0 0 * * 7 ") (3 * 1440) ≡ ok true)
    × (hits (codes "5-1 * * * *") 0 ≡ fail (codes "minute range is reversed"))
unfolding parse trim_start trim_end is_space expand_alias split_ws with_fields parse_fields
    parse_field parse_items list_items parse_item cut parse_range parse_int parse_name to_upper
    upper_byte scan_value is_digit mark any_below matches matches_tm text_eq
hits_lem = (refl, refl, refl, refl)

field_example :
    (parse_field (codes "1-5/2,30") 0 59 [] 0 (codes "minute") ≡ (
      all_items (list_items (codes "1-5/2,30")) 0 59 [] 0 (codes "minute") >>= λ its.
      checked (codes "minute") (any_covers its)))
    × ((bits : Bits) (i : ℕ)
        → parse_field (codes "1-5/2,30") 0 59 [] 0 (codes "minute") ≡ ok bits
        → bits i ≡ true
        → (0 ≤ i) × (i ≤ 59))
field_example = parse_field-all_items (codes "1-5/2,30") 0 59 [] 0 (codes "minute") refl

abbrev pub no_bits_set : Bits
no_bits_set i = false

abbrev pub hourly : CronExpr
hourly = record {
  source = codes "@hourly";
  minute = λ i. text_eq (to_string i) (codes "0");
  hour = λ i. true;
  dom = λ i. true;
  month = λ i. true;
  dow = no_bits_set;
  dom_all = false;
  dow_all = false;
}

first_example :
    IsFirst calendar hourly max_minutes
      (next_minute calendar hourly 90)
      (next_after calendar hourly 90)
    × (90 < next_minute calendar hourly 90)
    × (next_minute calendar hourly 90 ≤ 90 + minute_ticks)
first_example = next_after-IsFirst calendar hourly 90
