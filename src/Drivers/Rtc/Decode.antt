-- ===== src/Drivers/Rtc/Decode.antt =====
-- The registers of a clock in each of its four formats, and what the driver makes of them.
use saxon_os.Prelude.{
  ℕ, ◌+◌, ◌*◌, ◌/◌, ◌%◌, ◌≤◌, ◌<◌, ◌≡◌, ◌∙◌, sym, refl, arith, leb, ◌==◌, ==_iff, if◌then◌else◌,
  Bool, true, false, bit_and, bit_and_mask, u8, u32, every_below, every_below_at,
}
use saxon_os.Drivers.Rtc.{
  Clock, bcd_to_binary, bcd_hour_to_binary, convert_bcd, convert_hour, full_year, convert,
}

-- A moment from 2017 to 2116, by a 24 hour clock.
pub record IsMoment (c : Clock) : Type 0 where
  pub seconds : c.second < 60
  pub minutes : c.minute < 60
  pub hours : c.hour < 24
  pub days : c.day < 32
  pub months : c.month < 13
  pub from_year : 2017 ≤ c.year
  pub to_year : c.year < 2117

-- A number below 100 as a register holds it.
abbrev pub encode : Bool → ℕ → ℕ
encode bcd x = if bcd then x / 10 * 16 + x % 10 else x

-- The 12 hour clock counts from 1 to 12, with bit 7 for the afternoon.
abbrev pub encode_hour : Bool → Bool → ℕ → ℕ
encode_hour bcd half_day h =
    if half_day
    then encode bcd (if h % 12 == 0 then 12 else h % 12) + (if leb 12 h then 128 else 0)
    else encode bcd h

abbrev pub encoded : Bool → Bool → Clock → Clock
encoded bcd half_day c = record {
  second = encode bcd c.second;
  minute = encode bcd c.minute;
  hour = encode_hour bcd half_day c.hour;
  day = encode bcd c.day;
  month = encode bcd c.month;
  year = encode bcd (c.year % 100);
  century = c.century;
}

-- Register B: bit 2 is set for binary values, bit 1 for the 24 hour clock.
abbrev pub format : Bool → Bool → ℕ
format bcd half_day = (if bcd then 0 else 4) + (if half_day then 0 else 2)

-- What the driver makes of hour `h`: on a 12 hour clock midnight is read as 12 and noon as 0.
abbrev pub hour_read : Bool → ℕ → ℕ
hour_read half_day h = if half_day then (if h == 0 then 12 else if h == 12 then 0 else h) else h

bcd_to_binary-encode : (x : ℕ) → x < 100 → bcd_to_binary (encode true x) ≡ x
unfolding bcd_to_binary
bcd_to_binary-encode x h = omega (arith, bit_and_mask 4 (x / 10 * 16 + x % 10))

-- The two steps for the hour, by the format.
abbrev hour_of : Bool → Bool → ℕ → ℕ
hour_of bcd half_day h =
    let r = encode_hour bcd half_day h in
    convert_hour (format bcd half_day) (if bcd then u8 (bcd_hour_to_binary r) else r)

hours_table :
    (bcd half_day : Bool)
    → every_below 24 (λ h. hour_of bcd half_day h == hour_read half_day h) ≡ true
unfolding every_below convert_hour bcd_hour_to_binary
hours_table true true = refl
hours_table true false = refl
hours_table false true = refl
hours_table false false = refl

hour_of-hour_read :
    (bcd half_day : Bool) (h : ℕ) → h < 24 → hour_of bcd half_day h ≡ hour_read half_day h
hour_of-hour_read bcd half_day h p =
    (==_iff _ _).0 (every_below_at 24 _ (hours_table bcd half_day) h p)

full_year_lem : (c : Clock) (y : ℕ) → c.year ≡ y % 100 → 2017 ≤ y → y < 2117 → full_year 0 c ≡ y
unfolding full_year
full_year_lem c y e p q = ground arith

pub Clock-ext :
    {c d : Clock}
    → c.second ≡ d.second
    → c.minute ≡ d.minute
    → c.hour ≡ d.hour
    → c.day ≡ d.day
    → c.month ≡ d.month
    → c.year ≡ d.year
    → c.century ≡ d.century
    → c ≡ d
Clock-ext p0 p1 p2 p3 p4 p5 p6 = λ i. record {
  second = p0 i;
  minute = p1 i;
  hour = p2 i;
  day = p3 i;
  month = p4 i;
  year = p5 i;
  century = p6 i;
}

from_bcd : (x : ℕ) → x < 100 → u8 (bcd_to_binary (encode true x)) ≡ x
from_bcd x h = omega (arith, bcd_to_binary-encode x h)

year_of_century : (y : ℕ) → u32 (bcd_to_binary (encode true (y % 100))) ≡ y % 100
year_of_century y = omega (arith, bcd_to_binary-encode (y % 100) (omega arith))

convert-bcd :
    (half_day : Bool) (c : Clock)
    → IsMoment c
    → bit_and (format true half_day) 0x04 ≡ 0
    → convert 0 (format true half_day) (encoded true half_day c)
      ≡ record c { hour = hour_read half_day c.hour }
unfolding convert convert_bcd
convert-bcd half_day c m e = rw e (
    Clock-ext (from_bcd c.second (omega arith)) (from_bcd c.minute (omega arith))
      (hour_of-hour_read true half_day c.hour m.hours) (from_bcd c.day (omega arith))
      (from_bcd c.month (omega arith))
      (full_year_lem _ c.year (year_of_century c.year) m.from_year m.to_year) refl)

convert-binary :
    (half_day : Bool) (c : Clock)
    → IsMoment c
    → bit_and (format false half_day) 0x04 ≡ 4
    → convert 0 (format false half_day) (encoded false half_day c)
      ≡ record c { hour = hour_read half_day c.hour }
unfolding convert
convert-binary half_day c m e = rw e (
    Clock-ext refl refl (hour_of-hour_read false half_day c.hour m.hours) refl refl
      (full_year_lem _ c.year refl m.from_year m.to_year) refl)

-- Whatever format the clock is set to, the registers of a moment from 2017 to 2116 are converted
-- to that moment, but for the hour of a 12 hour clock at midnight, read as 12, and at noon, read
-- as 0. This is without a century register.
convert-encoded :
    (bcd half_day : Bool) (c : Clock)
    → IsMoment c
    → convert 0 (format bcd half_day) (encoded bcd half_day c)
      ≡ record c { hour = hour_read half_day c.hour }
convert-encoded true true c m = convert-bcd true c m refl
convert-encoded true false c m = convert-bcd false c m refl
convert-encoded false true c m = convert-binary true c m refl
convert-encoded false false c m = convert-binary false c m refl

-- Of register B only the two bits of the format matter.
convert-format :
    (b b' : ℕ) (c : Clock)
    → bit_and b 0x04 ≡ bit_and b' 0x04
    → bit_and b 0x02 ≡ bit_and b' 0x02
    → convert 0 b c ≡ convert 0 b' c
unfolding convert convert_hour
convert-format b b' c values hours = rw (values, hours) refl

-- Register B of a clock in a format, whatever its other bits.
pub record IsFormat (bcd half_day : Bool) (b : ℕ) : Type 0 where
  pub small : b < 256
  pub values : bit_and b 0x04 ≡ (if bcd then 0 else 0x04)
  pub hours : bit_and b 0x02 ≡ (if half_day then 0 else 0x02)

pub convert-IsFormat :
    (bcd half_day : Bool) (b : ℕ) (c : Clock)
    → IsFormat bcd half_day b
    → IsMoment c
    → convert 0 b (encoded bcd half_day c) ≡ record c { hour = hour_read half_day c.hour }
convert-IsFormat bcd half_day b c f m =
    convert-format b (format bcd half_day) _ (f.values ∙ sym (values bcd half_day))
      (f.hours ∙ sym (hours bcd half_day))
    ∙ convert-encoded bcd half_day c m
  where
    values : (bcd half_day : Bool) → bit_and (format bcd half_day) 0x04 ≡ (if bcd then 0 else 0x04)
    values true true = refl
    values true false = refl
    values false true = refl
    values false false = refl

    hours :
        (bcd half_day : Bool) → bit_and (format bcd half_day) 0x02 ≡ (if half_day then 0 else 0x02)
    hours true true = refl
    hours true false = refl
    hours false true = refl
    hours false false = refl
