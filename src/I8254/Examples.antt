-- ===== src/I8254/Examples.antt =====
-- A tick of the clock in the small system of Thread/Runs, where thread 4 is the timer thread and a timer
-- is due.
use x.Base.{false, none, some, [], ◌∷◌, ◌==◌}
use x.LinkedList.{sequences}
use x.Thread.State.{Kernel}
use x.Cpu.Tables.{Processor}
use x.Uart.Examples.{byte_list}
use x.Thread.Runs.{at}
use x.Timer.{Timers}

-- The timer interrupt came in the code of thread 2.
abbrev interrupted : Kernel
interrupted = record (at 0) { eflags = 2 }

abbrev timers : Timers
timers = record {
  timers = λ t. record { ticks = 20; fn = 0; arg = 0 };
  timer_ticks = 19;
  timer_list_empty = false;
  timer_wakeup_ticks = 20;
  timer_list = 5 ∷ [];
  timer_thread = some 4;
  locked = false;
}

abbrev processor : Processor
processor = record {
  gdt = λ i. record { low = 0; high = 0 };
  idt = λ i. record { low = 0; high = 0 };
  irq_handlers = λ i. record { fn = some 600; arg = 0 };
  gdtr = none;
  idtr = none;
  pics = record {
    pics = λ id. record { cmd_port = 0x20; data_port = 0x21; imr = 0; master = id == 0 };
    output = [];
  };
}
