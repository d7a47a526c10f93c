-- ===== src/Drivers/Timer.antt =====
-- src/drivers/timer.c: the interrupt of the timer, and how its chip is set up.
-- The registration of the handler is left out: an interrupt is a call of `timer_handler`.
use dosfs.Prelude.{ℕ, ◌+◌, ◌-◌, ◌/◌, ◌%◌, ◌^◌, ◌==◌, if◌then◌else◌}
use dosfs.Process.Scheduler.{Scheduler, scheduler_tick}
use dosfs.Drivers.Ports.{Ports}

-- `timer_ticks`, with the table that a tick schedules
pub record Timer : Type 0 where
  pub timer_ticks : ℕ
  pub table : Scheduler

pub timer_handler : Timer → Timer
timer_handler t = record {
  timer_ticks = (t.timer_ticks + 1) % 2 ^ 32;
  table = scheduler_tick t.table;
}

pub timer_get_ticks : Timer → ℕ
timer_get_ticks t = t.timer_ticks

-- The chip counts down from a divisor of 16 bits, and the interrupt is let through.
pub timer_init : (P : Ports) → ℕ → P.Machine → P.Machine
timer_init P freq m =
    let divisor = 1193180 / freq in
    let m1 = P.outb 0x43 0x36 m in
    let m2 = P.outb 0x40 (divisor % 256) m1 in
    let m3 = P.outb 0x40 (divisor / 256 % 256) m2 in
    let (mask, m4) = P.inb 0x21 m3 in if freq == 0 then m else P.outb 0x21 (mask - mask % 2) m4
