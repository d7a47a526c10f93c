-- ===== src/Drivers/Rtc/Tests.antt =====
-- A clock that shows the same number in each register.
use dosfs.Prelude.{ℕ, ◌≡◌, ◌==◌, refl, true, false, some}
use dosfs.Drivers.Ports.{Ports}
use dosfs.Drivers.Rtc.{
  Rtc, RtcTime, convert_time, validate, cmos_wait_update, wait_rounds, cmos_read, read_raw,
  rtc_read_time,
}
use dosfs.Drivers.Rtc.Bounds.{InRange, rtc_read_time-InRange}

-- The machine is the register that is selected; its content is the same for all but the status.
abbrev clock : Ports
clock = record {
  Machine = ℕ;
  outb = λ port v m. elim (port == 0x70) [ true ↦ v | false ↦ m ];
  inb = λ port m. (elim (m == 0x8A) [ true ↦ 0 | false ↦ 0x03 ], m);
  outl = λ port v m. m;
  inl = λ port m. (0, m);
}

abbrev chip : Rtc
chip = record { initialized = true; binary_mode = false; has_24hour_mode = false }

abbrev shown : RtcTime
shown = validate (
    convert_time chip
      (record { sec = 3; min = 3; hour = 3; wday = 3; mday = 3; mon = 3; yr = 3; cent = 3 }))

reads : (rtc_read_time clock chip 0).0 ≡ some shown
unfolding rtc_read_time read_raw cmos_wait_update wait_rounds cmos_read
reads = refl

rtc_read_time-InRange_example : InRange shown
rtc_read_time-InRange_example = rtc_read_time-InRange clock chip 0 shown reads
