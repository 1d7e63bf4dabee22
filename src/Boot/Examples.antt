-- ===== src/Boot/Examples.antt =====
-- The theorem on src/main.c from zeroed memory, with a `shell_setup` that creates a thread.
use x.Base.{ℕ, ◌+◌, ◌≡◌, refl, ap, false, inl, none, List, [], ◌∷◌, arith}
use x.Base.Outcome.{Outcome, ok, ◌>>=◌}
use x.LinkedList.{sequences}
use x.I8259.{initial}
use x.Thread.State.{Kernel}
use x.Thread.Create.{thread_create}
use x.Uart.Examples.{byte_list}
use x.Printf.Examples.{copy_format, text_of, copy_format-Prints}
use x.Cpu.Flags.{cpu_intr_enabled}
use x.Sw.{ShellCmd, Shell, register_cmds}
use x.Boot.{Addresses, System, kernel, with_threads, main}
use x.Boot.Booting.{no_thread}
use x.Boot.Threads.{start_thread_lem}
use x.Boot.Main.{ShellStarts, Up, main_lem}

instance abbrev command_list : Shell
command_list = record { Commands = List ShellCmd; shell_cmd_register = λ c cmd. (0, cmd ∷ c) }

abbrev addresses : Addresses
addresses = record {
  thread_dummy = 100;
  thread_start = 200;
  thread_idle = 204;
  timer_run = 208;
  gdt = 212;
  idt = 240;
  default_handler = 300;
  isr = λ v. 304 + v;
  i8254_irq_handler = 600;
  uart_irq_handler = 604;
  sw_timer = 608;
  sw_functions = record {
    timer_run = 700;
    shell_start = 704;
    shell_stop = 708;
    shell_resume = 712;
    shell_read = 716;
    shell_wait = 720;
  };
}

abbrev names : ℕ → List ℕ → List ℕ
names size name = name

abbrev zeroed : Kernel
zeroed = record {
  threads = λ t. no_thread;
  current = 0;
  nr_threads = 0;
  lists = λ p. [];
  idle = 0;
  eflags = 2;
}

abbrev memory : System
memory = record {
  console = record {
    uart = record { kernel = zeroed; uart_cbuf = []; uart_waiter = none; sent = [] };
    printf_buffer = λ i. 0;
  };
  processor = record {
    gdt = λ i. record { low = 0; high = 0 };
    idt = λ i. record { low = 0; high = 0 };
    irq_handlers = λ i. record { fn = none; arg = 0 };
    gdtr = none;
    idtr = none;
    pics = initial;
  };
  heap = record { mem_heap = 4194304; word = λ p. 0; free_nodes = []; locked = false };
  timers = record {
    timers = λ t. record { ticks = 0; fn = 0; arg = 0 };
    timer_ticks = 0;
    timer_list_empty = false;
    timer_wakeup_ticks = 0;
    timer_list = [];
    timer_thread = none;
    locked = false;
  };
  stopwatch = record {
    sync = record {
      base = record {
        kernel = zeroed;
        mutex = record { waiters = []; owner = none; locked = false };
        waiter_threads = λ w. 0;
      };
      waiters = [];
      waiter_at = λ w. record { thread = 0; awaken = false };
    };
    timers = record {
      timers = λ t. record { ticks = 0; fn = 0; arg = 0 };
      timer_ticks = 0;
      timer_list_empty = false;
      timer_wakeup_ticks = 0;
      timer_list = [];
      timer_thread = none;
      locked = false;
    };
    sw_ticks = 0;
    sw_timer_scheduled = false;
    sw_shell_waiting = false;
    sw_wait_ticks = 0;
    messages = [];
  };
  commands = [];
}

-- "shell", at priority 1
abbrev start_shell : System → Outcome System
start_shell s = do
  (error, thread, k, heap) ←
      thread_create 200 204 names (kernel s) s.heap 800 0 (115 ∷ 104 ∷ 101 ∷ 108 ∷ 108 ∷ []) 4096 1
  ok (with_threads s k heap)

starts : ShellStarts addresses start_shell
unfolding register_cmds
starts base s live v one =
    let (t, k', g, code, w) =
      start_thread_lem 200 204 names base 33545996 (kernel s) s.heap live 800 0
        (115 ∷ 104 ∷ 101 ∷ 108 ∷ 108 ∷ []) 4096 1 v (omega (arith, one)) (omega arith) (omega arith)
        (omega arith) (omega arith) (omega arith) in
    (
      with_threads s k' g,
      ap (λ m. m >>= λ r. ok (with_threads s r.2 r.3)) code,
      record {
        left = _;
        live = _;
        starting = w.starting;
        same_current = w.same_current;
        flags = w.flags;
        commands = _;
        registers = refl;
        silent = refl;
      },
    )

main_lem_example :
    (s' : System) × (main addresses names copy_format start_shell (88 ∷ 49 ∷ []) tt memory ≡ ok s')
    × Up addresses names copy_format text_of (88 ∷ 49 ∷ []) tt copy_format-Prints 100 memory s'
unfolding cpu_intr_enabled
main_lem_example =
    main_lem addresses names copy_format text_of (88 ∷ 49 ∷ []) tt copy_format-Prints start_shell
      memory (λ t. refl) refl
      (record { aligned = refl; positive = omega arith; fits = omega arith }) (inl (omega arith))
      (omega arith) starts
