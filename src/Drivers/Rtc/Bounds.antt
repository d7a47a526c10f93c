-- ===== src/Drivers/Rtc/Bounds.antt =====
-- Whatever the clock's registers hold, the time that is returned is one.
use dosfs.Prelude.{
  ◌≤◌, ◌≡◌, refl, sym, ap, ◌∙◌, some, none, Option, arith, Bool-cases, inl, inr, not,
}
use dosfs.Drivers.Ports.{Ports}
use dosfs.Drivers.Rtc.{
  Rtc, RtcTime, Raw, validate, convert_time, cmos_wait_update, read_raw, rtc_read_time,
}

pub record InRange (t : RtcTime) : Type 0 where
  pub seconds_in : t.seconds ≤ 59
  pub minutes_in : t.minutes ≤ 59
  pub hours_in : t.hours ≤ 23
  pub day_in : (1 ≤ t.day) × (t.day ≤ 31)
  pub month_in : (1 ≤ t.month) × (t.month ≤ 12)

validate-InRange : (r : Raw) → InRange (validate r)
unfolding validate
validate-InRange r = record {
  seconds_in = ground arith;
  minutes_in = ground arith;
  hours_in = ground arith;
  day_in = (ground arith, ground arith);
  month_in = (ground arith, ground arith);
}

or : RtcTime → Option RtcTime → RtcTime
or t none = t
or t (some u) = u

module _ (P : Ports) where
  open P use {Machine}

  -- With any hardware behind the ports, each time that is returned has its seconds, minutes, hours,
  -- day and month in their ranges.
  pub rtc_read_time-InRange :
      (c : Rtc) (m : Machine) (t : RtcTime) → (rtc_read_time P c m).0 ≡ some t → InRange t
  unfolding rtc_read_time or
  rtc_read_time-InRange c m t h = elim (Bool-cases (not c.initialized)) [
    | inl off ↦
        let e : (rtc_read_time P c m).0 ≡ none = rw (rtc_read_time, off) refl in absurd (cc (e, h))
    | inr on ↦ elim (Bool-cases (not (cmos_wait_update P m).0)) [
      | inl busy ↦
          let e : (rtc_read_time P c m).0 ≡ none = rw (rtc_read_time, on, busy) refl in
          absurd (cc (e, h))
      | inr ready ↦
          let r : Raw = convert_time c (read_raw P (cmos_wait_update P m).1).0 in
          let e : (rtc_read_time P c m).0 ≡ some (validate r) =
            rw (rtc_read_time, on, ready) refl in
          let same : t ≡ validate r = ap (or t) (sym h ∙ e) in rw same (validate-InRange r)
    ]
  ]
