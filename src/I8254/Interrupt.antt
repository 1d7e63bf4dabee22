-- ===== src/I8254/Interrupt.antt =====
-- The interrupt of the clock from `cpu_intr_main` of src/cpu.c on: the controllers, the handler of
-- src/i8254.c, and the end of the section without preemption.
use x.Base.Outcome.{ok, ◌>>=◌}
use x.LinkedList.{LinkedList}
use x.Cpu.Interrupt.{Call, on_kernel}
use x.Uart.{ByteBuffer}
use x.Timer.{Timers}
use x.I8254.{i8254_irq_handler}

module _ ⦃lib : LinkedList⦄ ⦃buf : ByteBuffer⦄ where
  -- The call of `i8254_irq_handler`.
  abbrev pub clock : Timers → Call
  clock t fn arg s c = do (k, t) ← i8254_irq_handler s.uart.kernel t; ok (on_kernel s k, c)
