-- ===== src/Clock.antt =====
-- The instants, calendar and decimal printing that config.go, app.go and restore.go take from the
-- packages time and fmt. An instant counts nanoseconds from 0001-01-01T00:00:00 UTC, which is the
-- zero value of `time.Time`; the code meets no earlier one.
use mongodb_backup_s.Base.{
  ℕ, zero, suc, ◌+◌, ◌-◌, ◌*◌, ◌/◌, ◌%◌, Bool, ◌&&◌, ◌||◌, not, List, [], ◌∷◌, ◌++◌, Option, none,
  some, Bytes, ltb, ◌==◌, if◌then◌else◌, between,
}

abbrev pub Instant : Type 0
Instant = ℕ

abbrev pub second : ℕ
second = 1000000000

abbrev pub day_seconds : ℕ
day_seconds = 86400

pub record Civil : Type 0 where
  pub year : ℕ
  pub month : ℕ
  pub day : ℕ
  pub hour : ℕ
  pub minute : ℕ
  pub secs : ℕ

unfoldable pub is_leap : ℕ → Bool
is_leap y = y % 4 == 0 && (not (y % 100 == 0) || y % 400 == 0)

unfoldable pub month_lengths : Bool → List ℕ
month_lengths leap =
    31 ∷ (if leap then 29 else 28) ∷ 31 ∷ 30 ∷ 31 ∷ 30 ∷ 31 ∷ 31 ∷ 30 ∷ 31 ∷ 30 ∷ 31 ∷ []

-- The month and the day of the month, from the months that are left and the days into them.
unfoldable pub month_day : ℕ → ℕ → List ℕ → ℕ × ℕ
month_day m d [] = (m, d + 1)
month_day m d (l ∷ ls) =
    let rest = month_day (m + 1) (d - l) ls in if ltb d l then (m, d + 1) else rest

-- The year, and the days into it, of a number of days from 0001-01-01.
unfoldable pub year_day : ℕ → ℕ × ℕ
year_day days =
    let n400 = days / 146097 in
    let d400 = days % 146097 in
    let n100 = if d400 / 36524 == 4 then 3 else d400 / 36524 in
    let d100 = d400 - 36524 * n100 in
    let n4 = d100 / 1461 in
    let d4 = d100 % 1461 in
    let n1 = if d4 / 365 == 4 then 3 else d4 / 365 in
    (1 + 400 * n400 + 100 * n100 + 4 * n4 + n1, d4 - 365 * n1)

-- `t.UTC()`, taken apart.
unfoldable pub civil : Instant → Civil
unfolding is_leap month_lengths month_day year_day
civil t =
    let total = t / second in
    let clock = total % day_seconds in
    let (year, yday) = year_day (total / day_seconds) in
    let (month, day) = month_day 1 yday (month_lengths (is_leap year)) in
    record {
      year = year;
      month = month;
      day = day;
      hour = clock / 3600;
      minute = clock / 60 % 60;
      secs = clock % 60;
    }

-- The last `w` decimal digits.
unfoldable pub digits : ℕ → ℕ → Bytes
digits zero n = []
digits (suc w) n = digits w (n / 10) ++ ((b'0' + n % 10) ∷ [])

-- The decimal digits without leading zeros, none for 0; `n` rounds are enough.
unfoldable pub high_digits : ℕ → ℕ → Bytes
high_digits zero n = []
high_digits (suc f) n =
    let rest = high_digits f (n / 10) in if n == 0 then [] else rest ++ ((b'0' + n % 10) ∷ [])

-- A number in decimal, padded with zeros to at least four digits (`2006` in a layout).
unfoldable pub year_text : ℕ → Bytes
unfolding digits high_digits
year_text n = high_digits (n / 10000) (n / 10000) ++ digits 4 n

-- `t.Format("2006-01-02T15:04:05")`
unfoldable pub format : Civil → Bytes
unfolding year_text
format c =
    year_text c.year
    ++ (b'-'
        ∷ (digits 2 c.month
            ++ (b'-'
                ∷ (digits 2 c.day
                    ++ (b'T'
                        ∷ (digits 2 c.hour
                            ++ (b':' ∷ (digits 2 c.minute ++ (b':' ∷ digits 2 c.secs)))))))))

-- A number in decimal, as `%d` prints it.
unfoldable pub decimal : ℕ → Bytes
unfolding digits high_digits
decimal n = high_digits (n / 10) (n / 10) ++ digits 1 n

two : ℕ → ℕ → ℕ
two a b = (a - b'0') * 10 + (b - b'0')

four : ℕ → ℕ → ℕ → ℕ → ℕ
four a b c d = two a b * 100 + two c d

nth : List ℕ → ℕ → ℕ
nth [] n = 0
nth (l ∷ ls) zero = l
nth (l ∷ ls) (suc n) = nth ls n

unfoldable pub month_length : ℕ → ℕ → ℕ
unfolding month_lengths nth is_leap
month_length year month = nth (month_lengths (is_leap year)) (month - 1)

-- The ranges that `time.Parse` checks.
unfoldable pub is_date : Civil → Bool
unfolding month_length
is_date c =
    between 1 12 c.month
    && between 1 (month_length c.year c.month) c.day
    && ltb c.hour 24
    && ltb c.minute 60
    && ltb c.secs 60

-- `time.Parse("2006-01-02T15:04:05", s)`, for a text of the shape that the caller has checked
-- before: nineteen bytes, with digits in the places of the digits.
unfoldable pub parse : Bytes → Option Civil
unfolding two four is_date
parse
      (y1 ∷ y2 ∷ y3 ∷ y4 ∷ _ ∷ m1 ∷ m2 ∷ _ ∷ d1 ∷ d2 ∷ _ ∷ h1 ∷ h2 ∷ _ ∷ n1 ∷ n2 ∷ _ ∷ s1 ∷ s2
        ∷ []) =
    let c : Civil = record {
      year = four y1 y2 y3 y4;
      month = two m1 m2;
      day = two d1 d2;
      hour = two h1 h2;
      minute = two n1 n2;
      secs = two s1 s2;
    } in
    if is_date c then some c else none
parse _ = none
