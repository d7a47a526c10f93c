-- ===== src/Drivers/Rtc.antt =====
-- src/drivers/rtc.c: the clock behind the ports 0x70 and 0x71.
-- Fields of 8 bits wrap at 256. Formatting a time is a call of `snprintf`.
mod Bounds
mod Tests
use dosfs.Prelude.{
  ℕ, zero, suc, ◌+◌, ◌*◌, ◌/◌, ◌%◌, Bool, true, false, not, ◌&&◌, ◌||◌, Option, none, some, ltb,
  ◌==◌, if◌then◌else◌,
}
use dosfs.Drivers.Ports.{Ports, io_wait}

pub record Rtc : Type 0 where
  pub initialized : Bool
  pub binary_mode : Bool
  pub has_24hour_mode : Bool

pub record RtcTime : Type 0 where
  pub seconds : ℕ
  pub minutes : ℕ
  pub hours : ℕ
  pub weekday : ℕ
  pub day : ℕ
  pub month : ℕ
  pub century : ℕ
  pub year : ℕ

-- the eight registers as they are read
pub record Raw : Type 0 where
  pub sec : ℕ
  pub min : ℕ
  pub hour : ℕ
  pub wday : ℕ
  pub mday : ℕ
  pub mon : ℕ
  pub yr : ℕ
  pub cent : ℕ

pub bcd_to_bin : ℕ → ℕ
bcd_to_bin bcd = (bcd % 16 + bcd / 16 * 10) % 256

-- the hour of a clock with 12 of them, from its number and its mark for the afternoon
pub to_24 : Bool → ℕ → ℕ
to_24 pm hour =
    if pm && ltb hour 12 then (hour + 12) % 256 else if not pm && (hour == 12) then 0 else hour

-- the conversions of `rtc_read_time`
pub convert_time : Rtc → Raw → Raw
unfolding bcd_to_bin to_24
convert_time c r =
    let pm = r.hour / 128 % 2 == 1 in
    let hour =
      if c.binary_mode
      then (if c.has_24hour_mode then r.hour else to_24 pm (r.hour % 128))
      else if c.has_24hour_mode
      then bcd_to_bin r.hour
      else to_24 pm (bcd_to_bin (r.hour % 128)) in
    if c.binary_mode then record r { hour = hour } else record r {
      sec = bcd_to_bin r.sec;
      min = bcd_to_bin r.min;
      hour = hour;
      mday = bcd_to_bin r.mday;
      mon = bcd_to_bin r.mon;
      yr = bcd_to_bin r.yr;
      cent = bcd_to_bin r.cent;
    }

-- the checks of the ranges, and the time that is returned
pub validate : Raw → RtcTime
validate r = record {
  seconds = if ltb 59 r.sec then 0 else r.sec;
  minutes = if ltb 59 r.min then 0 else r.min;
  hours = if ltb 23 r.hour then 0 else r.hour;
  weekday = r.wday;
  day = if ltb r.mday 1 || ltb 31 r.mday then 1 else r.mday;
  month = if ltb r.mon 1 || ltb 12 r.mon then 1 else r.mon;
  century = if ltb 0 r.cent then r.cent else 20;
  year = if ltb 0 r.cent then r.cent * 100 + r.yr else 2000 + r.yr;
}

module _ (P : Ports) where
  open P use {Machine, outb, inb}

  pub cmos_read : ℕ → Machine → ℕ × Machine
  cmos_read reg m =
      let (val, m') = inb 0x71 (io_wait P (outb 0x70 (128 + reg) m)) in (val, outb 0x70 0x0F m')

  -- `n` rounds of `cmos_wait_update`: whether an update has ended
  pub wait_rounds : ℕ → Machine → Bool × Machine
  unfolding cmos_read
  wait_rounds zero m = (false, m)
  wait_rounds (suc n) m =
      let (a, m') = cmos_read 0x0A m in
      elim (a / 128 % 2 == 0) [ true ↦ (true, m') | false ↦ wait_rounds n m' ]

  pub cmos_wait_update : Machine → Bool × Machine
  unfolding wait_rounds
  cmos_wait_update m = wait_rounds 100000 m

  pub rtc_init : Machine → Rtc × Machine
  unfolding cmos_read
  rtc_init m =
      let (status_b, m') = cmos_read 0x0B m in
      (
        record {
          initialized = true;
          binary_mode = status_b / 4 % 2 == 1;
          has_24hour_mode = status_b / 2 % 2 == 1;
        },
        m',
      )

  pub read_raw : Machine → Raw × Machine
  unfolding cmos_read
  read_raw m =
      let (sec, m1) = cmos_read 0x00 m in
      let (min, m2) = cmos_read 0x02 m1 in
      let (hour, m3) = cmos_read 0x04 m2 in
      let (wday, m4) = cmos_read 0x06 m3 in
      let (mday, m5) = cmos_read 0x07 m4 in
      let (mon, m6) = cmos_read 0x08 m5 in
      let (yr, m7) = cmos_read 0x09 m6 in
      let (cent, m8) = cmos_read 0x32 m7 in
      (
        record {
          sec = sec;
          min = min;
          hour = hour;
          wday = wday;
          mday = mday;
          mon = mon;
          yr = yr;
          cent = cent;
        },
        m8,
      )

  -- The time, unless the clock is not set up or stays busy, which is -1.
  pub rtc_read_time : Rtc → Machine → Option RtcTime × Machine
  unfolding read_raw convert_time validate
  rtc_read_time c m =
      let (ready, m1) = cmos_wait_update m in
      let (r, m2) = read_raw m1 in
      if not c.initialized
      then (none, m)
      else if not ready
      then (none, m1)
      else (some (validate (convert_time c r)), m2)
