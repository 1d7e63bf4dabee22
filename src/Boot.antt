-- ===== src/Boot.antt =====
-- src/main.c: the components are set up one after another, and the scheduler is enabled.
use x.Base.{ℕ, Option, List}
use x.Base.Outcome.{Outcome, ok, ◌>>=◌}
use x.LinkedList.{LinkedList}
use x.Mem.{Heap, mem_setup}
use x.Cpu.Tables.{Processor, cpu_setup_gdt, cpu_setup_idt}
use x.I8259.{i8259_setup}
use x.I8254.{i8254_setup}
use x.Uart.{ByteBuffer, uart_setup}
use x.Thread.State.{Kernel}
use x.Thread.Sched.{thread_enable_scheduler}
use x.Thread.Create.{thread_bootstrap, thread_setup}
use x.Timer.{Timers}
use x.Timer.Setup.{timer_setup}
use x.Printf.{Console, printf}
use x.Sw.{Stopwatch, Shell, SwFunctions, sw_setup}
pub mod Booting
pub mod Insert
pub mod Enable
pub mod Threads
pub mod Idle
pub mod Start
pub mod Main
mod Examples

-- The addresses of functions, tables, and static variables.
pub record Addresses : Type 0 where
  pub thread_dummy : ℕ
  pub thread_start : ℕ
  pub thread_idle : ℕ
  pub timer_run : ℕ
  pub gdt : ℕ
  pub idt : ℕ
  pub default_handler : ℕ
  pub isr : ℕ → ℕ
  pub i8254_irq_handler : ℕ
  pub uart_irq_handler : ℕ
  pub sw_timer : ℕ
  pub sw_functions : SwFunctions

-- `cpu_setup`
unfoldable pub cpu_setup : Addresses → Processor → Outcome Processor
cpu_setup a c = do c ← cpu_setup_gdt a.gdt c; cpu_setup_idt a.idt a.default_handler a.isr c

module _ ⦃lib : LinkedList⦄ ⦃buf : ByteBuffer⦄ ⦃shell : Shell⦄ where
  open shell use {Commands}

  -- The state of all components; the threads are those of the console.
  pub record System : Type 0 where
    pub console : Console
    pub processor : Processor
    pub heap : Heap
    pub timers : Timers
    pub stopwatch : Stopwatch
    pub commands : Commands

  abbrev pub kernel : System → Kernel
  kernel s = s.console.uart.kernel

  abbrev pub with_threads : System → Kernel → Heap → System
  with_threads s k heap = record s {
    console = record s.console { uart = record s.console.uart { kernel = k } };
    heap = heap;
  }

  -- The calls up to `uart_setup`, which set up the processor and its devices.
  unfoldable pub setup_devices : Addresses → System → Outcome System
  setup_devices a s = do
    c ← cpu_setup a s.processor
    pics ← i8259_setup c.pics
    c ← i8254_setup (record c { pics = pics }) a.i8254_irq_handler
    (uart, c) ← uart_setup s.console.uart c a.uart_irq_handler
    ok (record s { processor = c; console = record s.console { uart = uart } })

  -- The calls from `mem_setup` to `timer_setup`.
  unfoldable pub setup_threads : Addresses → (ℕ → List ℕ → List ℕ) → System → Outcome System
  setup_threads a snprintf s = do
    heap ← mem_setup s.heap
    (k, heap) ← thread_setup a.thread_start a.thread_idle snprintf (kernel s) heap
    (timers, k, heap) ←
        timer_setup a.thread_start a.thread_idle snprintf s.timers k heap a.timer_run
    ok (with_threads (record s { timers = timers }) k heap)

  module _ (a : Addresses) (snprintf : ℕ → List ℕ → List ℕ) {Args : Type 0}
      (vsnprintf : (ℕ → ℕ) → ℕ → List ℕ → Args → ℕ × (ℕ → ℕ)) where
    -- The calls from `sw_setup` on, with the message that has the version in it. The stopwatch uses
    -- the timers and the threads of the other components.
    unfoldable pub finish : List ℕ → Args → System → Outcome System
    finish message args s = do
      let sync = s.stopwatch.sync
      let stopwatch = record s.stopwatch {
        timers = s.timers;
        sync = record sync { base = record sync.base { kernel = kernel s } };
      }
      (stopwatch, commands) ← sw_setup a.sw_timer a.sw_functions stopwatch s.commands
      let s1 = record s { stopwatch = stopwatch; timers = stopwatch.timers; commands = commands }
      (length, console) ← printf vsnprintf s1.console message args
      let s2 = record s1 { console = console }
      k ← thread_enable_scheduler (kernel s2)
      ok (with_threads s2 k s2.heap)

    -- `main`, up to the context of the first thread. `shell_setup` of the copied library is a parameter.
    unfoldable pub main : (System → Outcome System) → List ℕ → Args → System → Outcome System
    main shell_setup message args s = do
      (k, heap) ←
          thread_bootstrap a.thread_start a.thread_idle snprintf (kernel s) s.heap a.thread_dummy
      s ← setup_devices a (with_threads s k heap)
      s ← setup_threads a snprintf s
      s ← shell_setup s
      finish message args s
