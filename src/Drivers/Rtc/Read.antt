-- ===== src/Drivers/Rtc/Read.antt =====
-- `read_rtc` on a CMOS clock that is not updating its registers.
use saxon_os.Prelude.{ℕ, suc, ◌%◌, ◌^◌, ◌<◌, ◌≡◌, refl, arith, Bool, ◌∷◌, ok}
use saxon_os.Prelude.Io.{Device, Trace, wr8, rd8}
use saxon_os.Drivers.Rtc.{
  Clock, get_rtc_register, update_in_progress_flag, await_update, read_registers, read_rtc,
}
use saxon_os.Drivers.Rtc.Decode.{
  IsMoment, encode, encode_hour, encoded, IsFormat, hour_read, convert-IsFormat, Clock-ext,
}

-- The hardware answers a read of the data port with the register selected by the write before it.
abbrev pub Selects : Device → (ℕ → ℕ) → Type 0
Selects d registers = (t : Trace) (r : ℕ) → d (wr8 0x70 r ∷ t) (rd8 0x71) ≡ registers r

-- The registers of a clock in a given format that stands at a moment, with no update under way.
pub record Shows (bcd half_day : Bool) (c : Clock) (registers : ℕ → ℕ) : Type 0 where
  pub second : registers 0x00 ≡ encode bcd c.second
  pub minute : registers 0x02 ≡ encode bcd c.minute
  pub hour : registers 0x04 ≡ encode_hour bcd half_day c.hour
  pub day : registers 0x07 ≡ encode bcd c.day
  pub month : registers 0x08 ≡ encode bcd c.month
  pub year : registers 0x09 ≡ encode bcd (c.year % 100)
  pub register_a : registers 0x0A ≡ 0x26
  pub register_b : IsFormat bcd half_day (registers 0x0B)

encode-lt : (bcd : Bool) (x : ℕ) → x < 100 → encode bcd x < 256
encode-lt bcd x h = ground arith

encode_hour-lt : (bcd half_day : Bool) (x : ℕ) → x < 24 → encode_hour bcd half_day x < 256
encode_hour-lt bcd half_day x h = ground arith

module _ (d : Device) (registers : ℕ → ℕ) (sel : Selects d registers) where
  register_value :
      (r : ℕ) (t : Trace) {v : ℕ}
      → r < 256
      → registers r ≡ v
      → v < 256
      → (get_rtc_register d r t).0 ≡ v
  unfolding get_rtc_register
  register_value r t p e q = let same : r % 2 ^ 8 ≡ r = omega arith in rw (same, sel) (omega arith)

  module _ (bcd half_day : Bool) (c : Clock) (m : IsMoment c)
      (s : Shows bcd half_day c registers) where
    idle : (rounds : ℕ) (t : Trace) → (t' : Trace) × (await_update (suc rounds) d t ≡ ok t')
    unfolding await_update update_in_progress_flag
    idle rounds t = (rd8 0x71 ∷ wr8 0x70 0x0A ∷ t, rw (sel, s.register_a) refl)

    raw_clock :
        (c0 : Clock) (t : Trace)
        → (read_registers d 0 c0 t).0 ≡ encoded bcd half_day (record c { century = c0.century })
    unfolding read_registers
    raw_clock c0 t =
        Clock-ext (register_value 0 _ (omega arith) s.second (encode-lt bcd _ (omega arith)))
          (register_value 2 _ (omega arith) s.minute (encode-lt bcd _ (omega arith)))
          (register_value 4 _ (omega arith) s.hour (encode_hour-lt bcd half_day _ m.hours))
          (register_value 7 _ (omega arith) s.day (encode-lt bcd _ (omega arith)))
          (register_value 8 _ (omega arith) s.month (encode-lt bcd _ (omega arith)))
          (register_value 9 _ (omega arith) s.year (encode-lt bcd _ (omega arith))) refl

    -- Without a century register, which is how the kernel is built, and with a clock in any of its
    -- formats, whatever interrupts it is set to give, that stands at a moment from 2017 to 2116 and
    -- is not updating its registers, `read_rtc` needs one round, and leaves in the driver's
    -- variables that moment, but for midnight and noon of a 12 hour clock, which become 12 and 0.
    -- The variable `century` keeps its value.
    pub read_rtc-Shows :
        (rounds : ℕ) (c0 : Clock) (t : Trace)
        → (t' : Trace) × (read_rtc (suc rounds) d 0 c0 t
            ≡ ok (record c { hour = hour_read half_day c.hour; century = c0.century }, t'))
    unfolding read_rtc
    read_rtc-Shows rounds c0 t =
        let (t1, waited) = idle rounds t in
        let t2 = (read_registers d 0 c0 t1).1 in
        let b = register_value 0x0B t2 (omega arith) refl (s.register_b.small) in
        let moment : IsMoment (record c { century = c0.century }) = record {
          seconds = m.seconds;
          minutes = m.minutes;
          hours = m.hours;
          days = m.days;
          months = m.months;
          from_year = m.from_year;
          to_year = m.to_year;
        } in
        (
          (get_rtc_register d 0x0B t2).1,
          rw
              (
                waited,
                b,
                raw_clock c0 t1,
                convert-IsFormat bcd half_day (registers 0x0B) _ s.register_b moment,
              )
              refl,
        )
