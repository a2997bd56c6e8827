-- ===== src/Userspace/Time.antt =====
-- src/userspace/sys_time.c: the seconds since 1970, from the clock's date.
use saxon_os.Prelude.{
  ap, ◌%◌, ℕ, ◌+◌, ◌-◌, ◌*◌, ◌/◌, ◌^◌, ◌<◌, ◌≤◌, ◌≡◌, arith, u32, Option, none, some,
}
use saxon_os.Drivers.Rtc.{Clock}

-- The sum of the six macros. `year` is an unsigned difference, so the whole sum is unsigned.
pub seconds_of : Clock → ℕ
seconds_of c = u32 (
    u32 (u32 (c.year + 2 ^ 32 - 1970) * 31536000)
    + c.month * 2592000
    + c.day * 86400
    + c.hour * 3600
    + c.minute * 60
    + c.second)

-- The result as the 32 bits of an `int`, and what is stored through `tloc` if it is not null.
pub sys_time : Clock → Option ℕ → ℕ × Option ℕ
sys_time c tloc = let ret = seconds_of c in (ret, elim tloc [ none ↦ none | some old ↦ some ret ])

-- The time that a clock stands for, in 32 bits: years of 365 days from 1970, months of 30 days.
abbrev pub time_of : Clock → ℕ
time_of c =
    (((c.year + 2 ^ 32 - 1970) * 365 + c.month * 30 + c.day) * 86400
      + c.hour * 3600
      + c.minute * 60
      + c.second)
    % 2 ^ 32

-- What is behind the pointer to a time after a call that stores one.
abbrev pub stored_time : ℕ → Option ℕ → Option ℕ
stored_time time none = none
stored_time time (some old) = some time

pub sys_time-stored :
    (c : Clock) (tloc : Option ℕ) → sys_time c tloc ≡ (time_of c, stored_time (time_of c) tloc)
unfolding sys_time seconds_of
sys_time-stored c none = ap (λ n. (n, none)) (omega arith)
sys_time-stored c (some old) = ap (λ n. (n, some n)) (omega arith)

-- The Unix time at the start of a year from 1970 to 2100: 365 days for each year before it, and a
-- day for each leap year among them.
abbrev pub new_year : ℕ → ℕ
new_year year = ((year - 1970) * 365 + (year - 1969) / 4) * 86400

abbrev pub first_of_january : ℕ → Clock
first_of_january year = record {
  second = 0;
  minute = 0;
  hour = 0;
  day = 1;
  month = 1;
  year = year;
  century = 0;
}

-- Within a year the seconds grow with the time of the day as they should: two times on the same
-- date, from 1970 to 2099, differ by the difference of their times of day.
pub seconds_of-same_day :
    (c d : Clock)
    → 1970 ≤ c.year
    → c.year < 2100
    → c.month < 13
    → c.day < 32
    → c.hour < 24
    → c.minute < 60
    → c.second < 60
    → d.hour < 24
    → d.minute < 60
    → d.second < 60
    → d.year ≡ c.year
    → d.month ≡ c.month
    → d.day ≡ c.day
    → seconds_of c + (d.hour * 3600 + d.minute * 60 + d.second)
      ≡ seconds_of d + (c.hour * 3600 + c.minute * 60 + c.second)
unfolding seconds_of
seconds_of-same_day c d y0 y1 mo da h m s h' m' s' ey em ed = rw (ey, em, ed) (omega arith)

-- At the start of a year from 1970 to 2099 the result is 31 days more than the Unix time, less a
-- day for each leap year before it: months and days are not counted from zero, and leap years are
-- not counted at all.
pub sys_time-new_year :
    (year : ℕ)
    → 1970 ≤ year
    → year < 2100
    → (sys_time (first_of_january year) none).0 + (year - 1969) / 4 * 86400
      ≡ new_year year + 31 * 86400
unfolding sys_time seconds_of
sys_time-new_year year h k = omega arith

-- Every month counts 30 days, so the 31st of a month and the 1st of the next month give the same
-- time, whatever the year.
pub seconds_of-month_end :
    (c : Clock)
    → seconds_of (record c { day = 31 }) ≡ seconds_of (record c { day = 1; month = c.month + 1 })
unfolding seconds_of
seconds_of-month_end c = omega arith
