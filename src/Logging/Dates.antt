-- ===== src/Logging/Dates.antt =====
-- formatDate (common/log/config.go): the bytes of a time in a log entry. Its fields are those that Date, Clock
-- and Nanosecond of package time return.
use polaris_controller.Common.{
  ℕ, zero, suc, ◌+◌, ◌-◌, ◌*◌, ◌/◌, ◌%◌, ◌^◌, ◌≤◌, ◌<◌, ◌≡◌, refl, List, [], ◌∷◌, length, arith,
}

pub record Date : Type 0 where
  pub year : ℕ
  pub month : ℕ
  pub day : ℕ
  pub hour : ℕ
  pub minute : ℕ
  pub second : ℕ
  pub nanosecond : ℕ

-- byte(n) + '0'
abbrev digit_byte : ℕ → ℕ
digit_byte n = (n % 2 ^ 8 + b'0') % 2 ^ 8

unfoldable pub format_date : Date → List ℕ
format_date t =
    let micros = t.nanosecond / 1000 in
    digit_byte (t.year / 1000 % 10)
    ∷ digit_byte (t.year / 100 % 10)
    ∷ digit_byte (t.year / 10 % 10)
    ∷ digit_byte (t.year % 10)
    ∷ b'-'
    ∷ digit_byte (t.month / 10)
    ∷ digit_byte (t.month % 10)
    ∷ b'-'
    ∷ digit_byte (t.day / 10)
    ∷ digit_byte (t.day % 10)
    ∷ b'T'
    ∷ digit_byte (t.hour / 10)
    ∷ digit_byte (t.hour % 10)
    ∷ b':'
    ∷ digit_byte (t.minute / 10)
    ∷ digit_byte (t.minute % 10)
    ∷ b':'
    ∷ digit_byte (t.second / 10)
    ∷ digit_byte (t.second % 10)
    ∷ b'.'
    ∷ digit_byte (micros / 100000 % 10)
    ∷ digit_byte (micros / 10000 % 10)
    ∷ digit_byte (micros / 1000 % 10)
    ∷ digit_byte (micros / 100 % 10)
    ∷ digit_byte (micros / 10 % 10)
    ∷ digit_byte (micros % 10)
    ∷ b'Z'
    ∷ []

abbrev skip : ℕ → List ℕ → List ℕ
skip zero bytes = bytes
skip (suc n) [] = []
skip (suc n) (c ∷ bytes) = skip n bytes

-- The number that `count` decimal digits stand for, after what came before them.
abbrev number : ℕ → ℕ → List ℕ → ℕ
number zero n bytes = n
number (suc count) n [] = n
number (suc count) n (c ∷ bytes) = number count (n * 10 + (c - b'0')) bytes

-- A reader of the layout 2006-01-02T15:04:05.000000 that ignores the zone.
pub read_date : List ℕ → Date
read_date bytes = record {
  year = number 4 0 bytes;
  month = number 2 0 (skip 5 bytes);
  day = number 2 0 (skip 8 bytes);
  hour = number 2 0 (skip 11 bytes);
  minute = number 2 0 (skip 14 bytes);
  second = number 2 0 (skip 17 bytes);
  nanosecond = number 6 0 (skip 20 bytes) * 1000;
}

-- What package time promises of the fields, and a year of four digits.
pub record IsDate (t : Date) : Type 0 where
  pub of_year : t.year < 10000
  pub of_month : (1 ≤ t.month) × (t.month ≤ 12)
  pub of_day : (1 ≤ t.day) × (t.day ≤ 31)
  pub of_hour : t.hour < 24
  pub of_minute : t.minute < 60
  pub of_second : t.second < 60
  pub of_nanosecond : t.nanosecond < 1000000000

digit_read : (n : ℕ) → n < 10 → digit_byte n - b'0' ≡ n
digit_read n h = omega arith

two_digits : (n : ℕ) → n < 100 → number 2 0 (digit_byte (n / 10) ∷ digit_byte (n % 10) ∷ []) ≡ n
two_digits n h =
    rw (digit_read (n / 10) (omega arith), digit_read (n % 10) (omega arith)) (omega arith)

four_digits :
    (n : ℕ)
    → n < 10000
    → number 4 0 (
        digit_byte (n / 1000 % 10)
        ∷ digit_byte (n / 100 % 10)
        ∷ digit_byte (n / 10 % 10)
        ∷ digit_byte (n % 10)
        ∷ [])
      ≡ n
four_digits n h =
    rw
      (
        digit_read (n / 1000 % 10) (omega arith),
        digit_read (n / 100 % 10) (omega arith),
        digit_read (n / 10 % 10) (omega arith),
        digit_read (n % 10) (omega arith),
      )
      (omega arith)

six_digits :
    (n : ℕ)
    → n < 1000000
    → number 6 0 (
        digit_byte (n / 100000 % 10)
        ∷ digit_byte (n / 10000 % 10)
        ∷ digit_byte (n / 1000 % 10)
        ∷ digit_byte (n / 100 % 10)
        ∷ digit_byte (n / 10 % 10)
        ∷ digit_byte (n % 10)
        ∷ [])
      ≡ n
six_digits n h =
    rw
      (
        digit_read (n / 100000 % 10) (omega arith),
        digit_read (n / 10000 % 10) (omega arith),
        digit_read (n / 1000 % 10) (omega arith),
        digit_read (n / 100 % 10) (omega arith),
        digit_read (n / 10 % 10) (omega arith),
        digit_read (n % 10) (omega arith),
      )
      (omega arith)

-- For a time with a year of four digits, the text of a log entry is 27 bytes long and read back as the same
-- year, month, day, hour, minute and second, and the nanoseconds rounded down to microseconds.
pub read_date-format_date :
    (t : Date)
    → IsDate t
    → (length (format_date t) ≡ 27)
      × (read_date (format_date t) ≡ record t { nanosecond = t.nanosecond / 1000 * 1000 })
unfolding format_date read_date
read_date-format_date t v = (
  refl,
  λ i. record {
    year = four_digits t.year v.of_year i;
    month = two_digits t.month (omega arith) i;
    day = two_digits t.day (omega arith) i;
    hour = two_digits t.hour (omega arith) i;
    minute = two_digits t.minute (omega arith) i;
    second = two_digits t.second (omega arith) i;
    nanosecond = six_digits (t.nanosecond / 1000) (omega arith) i * 1000;
  },
)
