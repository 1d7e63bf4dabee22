-- ===== src/I8254.antt =====
-- src/i8254.c, the interval timer, and `thread_report_tick` of src/thread.c, which its interrupts call.
use x.Base.{ℕ, ◌+◌, ◌-◌, ◌%◌, ◌/◌}
use x.Base.Outcome.{Outcome, ok, ◌>>=◌}
use x.LinkedList.{LinkedList}
use x.Cpu.Tables.{Processor, cpu_irq_register}
use x.I8259.{io_write}
use x.Thread.State.{Kernel, thread_self, thread_set_yield}
use x.Timer.{Timers, timer_report_tick}
pub mod Tick
pub mod Interrupt
pub mod Start
mod Examples

-- `THREAD_SCHED_FREQ` of src/thread.h
abbrev pub thread_sched_freq : ℕ
thread_sched_freq = 100

-- `I8254_INITIAL_COUNT`, the frequency 1193182 divided by that of the scheduler, rounded up.
abbrev i8254_initial_count : ℕ
i8254_initial_count = (1193182 + thread_sched_freq - 1) / thread_sched_freq

-- With the address of `i8254_irq_handler`. The mode is counter 0, both bytes of the count, rate
-- generator, binary.
pub i8254_setup : Processor → ℕ → Outcome Processor
i8254_setup c handler = do
  c ← cpu_irq_register c 0 handler 0
  let p1 = io_write c.pics 0x43 (0x00 + 0x20 + 0x10 + 0x04 + 0x00)
  let p2 = io_write p1 0x40 (i8254_initial_count % 256)
  ok (record c { pics = io_write p2 0x40 (i8254_initial_count / 256) })

module _ ⦃lib : LinkedList⦄ where
  unfoldable pub thread_report_tick : Kernel → Timers → Outcome (Kernel × Timers)
  thread_report_tick k t = timer_report_tick (thread_set_yield k (thread_self k)) t

  unfoldable pub i8254_irq_handler : Kernel → Timers → Outcome (Kernel × Timers)
  i8254_irq_handler k t = thread_report_tick k t
