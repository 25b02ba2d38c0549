-- ===== src/Model/Clock.antt =====
-- time.Time in UTC, as the nanoseconds since Go's zero time, 1 January of year 1; the layouts that
-- the store prints times by; and strconv's decimal digits.
pub mod Decimal
use moltenhub.Base.{
  ℕ, zero, suc, ◌+◌, ◌-◌, ◌*◌, ◌/◌, ◌%◌, Bool, ◌&&◌, ◌||◌, not, List, [], ◌∷◌, ◌++◌, ltb, ◌==◌,
  if◌then◌else◌,
}
use moltenhub.Base.Text.{Text}
use Prim.Native.Nat.{min}

abbrev pub Time : Type 0
Time = ℕ

abbrev pub second : ℕ
second = 1000000000

-- The Unix epoch, 719162 days after the zero time.
abbrev pub unix_epoch : Time
unix_epoch = 719162 * 86400 * 1000000000

unfoldable pub digits_onto : ℕ → ℕ → Text → Text
digits_onto zero n acc = acc
digits_onto (suc f) n acc =
    let more = digits_onto f (n / 10) ((48 + n % 10) ∷ acc) in
    if ltb n 10 then (48 + n) ∷ acc else more

-- %d of a number that is not negative. A number has no more digits than its value plus one.
unfoldable pub decimal : ℕ → Text
unfolding digits_onto
decimal n = digits_onto (suc n) n []

-- now.UnixNano() under %d.
unfoldable pub unix_nano : Time → Text
unfolding decimal
unix_nano t = if ltb t unix_epoch then b'-' ∷ decimal (unix_epoch - t) else decimal (t - unix_epoch)

two_digits : ℕ → Text
two_digits n = (48 + n / 10 % 10) ∷ (48 + n % 10) ∷ []

four_digits : ℕ → Text
unfolding two_digits
four_digits n = two_digits (n / 100) ++ two_digits (n % 100)

-- The year and the day of the year (from 0) of a day counted from the zero time.
year_day : ℕ → ℕ × ℕ
year_day days =
    let d400 = days % 146097 in
    let n100 = min (d400 / 36524) 3 in
    let d100 = d400 - n100 * 36524 in
    let d4 = d100 % 1461 in
    let n1 = min (d4 / 365) 3 in
    (1 + 400 * (days / 146097) + 100 * n100 + 4 * (d100 / 1461) + n1, d4 - n1 * 365)

is_leap : ℕ → Bool
is_leap y = y % 4 == 0 && (not (y % 100 == 0) || y % 400 == 0)

-- The month (from 1) and the day of the month (from 1), by going through the months' lengths.
month_day : List ℕ → ℕ → ℕ → ℕ × ℕ
month_day [] m d = (m, d + 1)
month_day (n ∷ ns) m d =
    let later = month_day ns (m + 1) (d - n) in if ltb d n then (m, d + 1) else later

date_text : ℕ × ℕ → Text
unfolding month_day is_leap two_digits four_digits
date_text (year, day) =
    let (m, d) =
      month_day
        (31
          ∷ (if is_leap year then 29 else 28)
          ∷ 31
          ∷ 30
          ∷ 31
          ∷ 30
          ∷ 31
          ∷ 31
          ∷ 30
          ∷ 31
          ∷ 30
          ∷ 31
          ∷ [])
        1 day in
    four_digits year ++ b'-' ∷ (two_digits m ++ b'-' ∷ two_digits d)

-- t.Format("2006-01-02")
unfoldable pub format_date : Time → Text
unfolding date_text year_day
format_date t = date_text (year_day (t / second / 86400))

-- t.UTC().Format(time.RFC3339)
unfoldable pub format_rfc3339 : Time → Text
unfolding format_date two_digits
format_rfc3339 t =
    let s = t / second % 86400 in
    format_date t
    ++ (b'T'
        ∷ (two_digits (s / 3600)
            ++ (b':' ∷ (two_digits (s / 60 % 60) ++ (b':' ∷ (two_digits (s % 60) ++ b'Z' ∷ []))))))
