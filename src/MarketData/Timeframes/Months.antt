-- ===== src/MarketData/Timeframes/Months.antt =====
-- The months of the calendar: a time lies in the month that its fields name.
use save_money_trading_bot.Prelude.{
  ℕ, ◌+◌, ◌-◌, ◌*◌, ◌/◌, ◌%◌, ◌≤◌, ◌<◌, ◌≡◌, refl, true, false, ltb, leb, arith, inl, inr,
  Bool-cases, if◌then◌else◌,
}
use save_money_trading_bot.StrategyEngine.Models.{Time}
use save_money_trading_bot.MarketData.Timeframes.{
  day, era_day, era_year, year_day, march_month, day_of, month_of, year_of, days_to, daily_open,
  monthly_open,
}

-- The days before the year `y` of an era.
abbrev before_year : ℕ → ℕ
before_year y = 365 * y + y / 4 - y / 100

-- Of a day of an era: its year starts by then, is the last such, and is below 400.
year_bounds :
    (d y : ℕ)
    → d < 146097
    → y ≡ (d - d / 1460 + d / 36524 - d / 146096) / 365
    → (before_year y ≤ d) × (d - before_year y ≤ 365) × (y ≤ 399)
year_bounds d y h e = (omega arith, omega arith, omega arith)

-- Of a day of a year from March on: its month starts by then, and it is one of 12, of 31 days at most.
month_bounds :
    (n m : ℕ)
    → n ≤ 365
    → m ≡ (5 * n + 2) / 153
    → ((153 * m + 2) / 5 ≤ n)
      × (n < (153 * (m + 1) + 2) / 5)
      × (m ≤ 11)
      × (n - (153 * m + 2) / 5 ≤ 30)
month_bounds n m h e = (omega arith, omega arith, omega arith, omega arith)

-- The days to the month of a time, from its era, its year and its month from March on.
days_to-early :
    (e y m : ℕ)
    → y ≤ 399
    → m < 10
    → days_to (y + e * 400 + 0) (m + 3) ≡ e * 146097 + before_year y + (153 * m + 2) / 5
unfolding days_to
days_to-early e y m hy hm =
    let late : leb (m + 3) 2 ≡ false = ground arith in
    let era : (y + e * 400 + 0) / 400 ≡ e = omega arith in
    let year : (y + e * 400 + 0) % 400 ≡ y = omega arith in rw (late, era, year) (omega arith)

days_to-late :
    (e y m : ℕ)
    → y ≤ 399
    → 10 ≤ m
    → m ≤ 11
    → days_to (y + e * 400 + 1) (m - 9) ≡ e * 146097 + before_year y + (153 * m + 2) / 5
unfolding days_to
days_to-late e y m hy hm h =
    let early : leb (m - 9) 2 ≡ true = ground arith in
    let month : m - 9 + 9 ≡ m = omega arith in
    let era : (y + e * 400 + 1 - 1) / 400 ≡ e = omega arith in
    let year : (y + e * 400 + 1 - 1) % 400 ≡ y = omega arith in
    rw (early, month, era, year) (omega arith)

-- The month of the year, from the month from March on.
abbrev month_from : ℕ → ℕ
month_from m = if ltb m 10 then m + 3 else m - 9

days_to-month :
    (e y m : ℕ)
    → y ≤ 399
    → m ≤ 11
    → days_to (y + e * 400 + (if leb (month_from m) 2 then 1 else 0)) (month_from m)
      ≡ e * 146097 + before_year y + (153 * m + 2) / 5
days_to-month e y m hy hm = elim (Bool-cases (ltb m 10)) [
  | inl early ↦
      let later : leb (m + 3) 2 ≡ false = ground arith in
      rw (early, later) (days_to-early e y m hy (ground (arith, early)))
  | inr late ↦
      let first : leb (m - 9) 2 ≡ true = ground (arith, late, hm) in
      rw (late, first) (days_to-late e y m hy (ground (arith, late)) hm)
]

-- The fields of a day give it back.
fields_of_day :
    (whole e d y n m : ℕ)
    → e ≡ whole / 146097
    → d ≡ whole % 146097
    → y ≡ (d - d / 1460 + d / 36524 - d / 146096) / 365
    → n ≡ d - before_year y
    → m ≡ (5 * n + 2) / 153
    → (days_to (y + e * 400 + (if leb (month_from m) 2 then 1 else 0)) (month_from m)
          + (n - (153 * m + 2) / 5 + 1 - 1)
        ≡ whole)
      × (n - (153 * m + 2) / 5 + 1 - 1 ≤ 30)
fields_of_day whole e d y n m he hd hy hn hm =
    let (starts, short, below) = year_bounds d y (omega arith) hy in
    let (month_starts, _, months, days) = month_bounds n m (omega (arith, short)) hm in
    (
      rw (days_to-month e y m below months) (omega (arith, starts, month_starts)),
      omega (arith, days),
    )

-- Days, in microseconds.
in_microseconds :
    (month passed whole : ℕ)
    → month + passed ≡ whole + 719468
    → passed ≤ 30
    → 31 ≤ whole
    → (month - 719468) * day + passed * day ≡ whole * day
in_microseconds month passed whole h b k = omega arith

-- The first of a time's own month, and the days of the month that have passed, are the start of its day;
-- from February 1970 on, where the month starts in the model's range.
pub monthly_open-fields :
    (t : Time)
    → 31 * day ≤ t
    → monthly_open (year_of t) (month_of t) + (day_of t - 1) * day ≡ daily_open t
unfolding monthly_open daily_open
monthly_open-fields t h =
    let (fields, days) =
      fields_of_day (t / day + 719468) ((t / day + 719468) / 146097) (era_day t) (era_year t)
        (year_day t) (march_month t) refl refl refl refl refl in
    in_microseconds (days_to (year_of t) (month_of t)) (day_of t - 1) (t / day) fields days
      (omega arith)
