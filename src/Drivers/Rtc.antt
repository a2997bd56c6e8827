-- ===== src/Drivers/Rtc.antt =====
-- src/drivers/rtc.c: the CMOS clock, its registers in binary or BCD, in a 12 or a 24 hour format.
pub mod Decode
pub mod Read
use saxon_os.Prelude.{
  ℕ, zero, suc, ◌+◌, ◌*◌, ◌/◌, ◌%◌, bit_and, bit_or, u8, u32, ltb, ◌==◌, if◌then◌else◌, not, ◌&&◌,
  Outcome, ok, hang, ◌>>=◌,
}
use saxon_os.Prelude.Io.{Device, Trace, outb, inb}
use saxon_os.Cpu.Irq.{Routines, irq_install_handler, irq_uninstall_handler}

-- The static variables of the driver.
pub record Clock : Type 0 where
  pub second : ℕ
  pub minute : ℕ
  pub hour : ℕ
  pub day : ℕ
  pub month : ℕ
  pub year : ℕ
  pub century : ℕ

abbrev pub current_year : ℕ
current_year = 2017

-- `outb(CMOS_ADDRESS, reg); return inb(CMOS_DATA);`
pub get_rtc_register : Device → ℕ → Trace → ℕ × Trace
get_rtc_register d reg t = inb d 0x71 (outb 0x70 reg t)

pub update_in_progress_flag : Device → Trace → ℕ × Trace
update_in_progress_flag d t = let (v, t') = inb d 0x71 (outb 0x70 0x0A t) in (bit_and v 0x80, t')

-- `while (update_in_progress_flag());`
pub await_update : ℕ → Device → Trace → Outcome Trace
await_update zero d t = hang
await_update (suc rounds) d t =
    let (flag, t') = update_in_progress_flag d t in
    let rest = await_update rounds d t' in if flag == 0 then ok t' else rest

-- The reads of the registers, into variables of the declared widths.
pub read_registers : Device → ℕ → Clock → Trace → Clock × Trace
read_registers d century_register c t =
    let (second, t1) = get_rtc_register d 0x00 t in
    let (minute, t2) = get_rtc_register d 0x02 t1 in
    let (hour, t3) = get_rtc_register d 0x04 t2 in
    let (day, t4) = get_rtc_register d 0x07 t3 in
    let (month, t5) = get_rtc_register d 0x08 t4 in
    let (year, t6) = get_rtc_register d 0x09 t5 in
    let (century, t7) = get_rtc_register d century_register t6 in
    let none_read = century_register == 0 in
    (
      record {
        second = second;
        minute = minute;
        hour = hour;
        day = day;
        month = month;
        year = year;
        century = if none_read then c.century else century;
      },
      if none_read then t6 else t7,
    )

-- `binary = ((bcd / 16) * 10) + (bcd & 0xf)`
pub bcd_to_binary : ℕ → ℕ
bcd_to_binary x = bit_and x 0x0F + x / 16 * 10

-- `( (hour & 0x0F) + (((hour & 0x70) / 16) * 10) ) | (hour & 0x80)`
pub bcd_hour_to_binary : ℕ → ℕ
bcd_hour_to_binary x = bit_or (bit_and x 0x0F + bit_and x 0x70 / 16 * 10) (bit_and x 0x80)

pub convert_bcd : ℕ → Clock → Clock
convert_bcd century_register c = record {
  second = u8 (bcd_to_binary c.second);
  minute = u8 (bcd_to_binary c.minute);
  hour = u8 (bcd_hour_to_binary c.hour);
  day = u8 (bcd_to_binary c.day);
  month = u8 (bcd_to_binary c.month);
  year = u32 (bcd_to_binary c.year);
  century = if century_register == 0 then c.century else u8 (bcd_to_binary c.century);
}

-- The conversion of a 12 hour clock.
pub convert_hour : ℕ → ℕ → ℕ
convert_hour register_b hour =
    if (bit_and register_b 0x02 == 0) && not (bit_and hour 0x80 == 0)
    then u8 ((bit_and hour 0x7F + 12) % 24)
    else hour

pub full_year : ℕ → Clock → ℕ
full_year century_register c =
    if century_register == 0
    then (let y = u32 (c.year + current_year / 100 * 100) in
        if ltb y current_year then u32 (y + 100) else y)
    else u32 (c.year + c.century * 100)

-- All that `read_rtc` does after its last read.
pub convert : ℕ → ℕ → Clock → Clock
convert century_register register_b c =
    let b = if bit_and register_b 0x04 == 0 then convert_bcd century_register c else c in
    record b { hour = convert_hour register_b b.hour; year = full_year century_register b }

pub read_rtc : ℕ → Device → ℕ → Clock → Trace → Outcome (Clock × Trace)
read_rtc rounds d century_register c t = await_update rounds d t >>= λ t1.
    let (raw, t2) = read_registers d century_register c t1 in
    let (register_b, t3) = get_rtc_register d 0x0B t2 in
    ok (convert century_register register_b raw, t3)

pub rtc_handler : ℕ → Device → ℕ → Clock → Trace → Outcome (Clock × Trace)
rtc_handler rounds d century_register c t =
    let (_, t1) = inb d 0x71 (outb 0x70 0x0C t) in read_rtc rounds d century_register c t1

-- The number of the handler stands for its address.
pub rtc_install : Device → (rtc_handler : ℕ) → Routines → Trace → Outcome (Routines × Trace)
rtc_install d rtc_handler r t =
    let (prev, t1) = inb d 0x71 (outb 0x70 0x8B t) in
    irq_install_handler 8 rtc_handler r >>= λ r'.
    ok (r', outb 0x71 (bit_or prev 0x40) (outb 0x70 0x8B t1))

pub rtc_uninstall : Routines → Outcome Routines
rtc_uninstall r = irq_uninstall_handler 8 r
