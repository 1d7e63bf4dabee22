-- ===== src/Boot/Start.antt =====
-- `main` of src/main.c: every component is set up, no assertion fails, and the first thread is loaded.
use x.Base.{
  ℕ, ◌+◌, ◌≤◌, ◌<◌, ◌≡◌, ◌≢◌, refl, ap, sym, ◌∙◌, true, false, ◌⊎◌, none, some, List, [], ◌∷◌,
  ==_eq, ==_ne, arith, update,
}
use x.Base.Outcome.{ok, ◌>>=◌}
use x.LinkedList.{LinkedList}
use x.Cpu.Tables.{Processor, cpu_setup_idt}
use x.Cpu.Tables.Handlers.{setup_idt_lem}
use x.Cpu.Tables.Start.{setup_gdt_lem}
use x.I8259.Start.{i8259_setup_lem}
use x.I8254.Start.{i8254_setup_lem}
use x.Uart.{ByteBuffer}
use x.Uart.Start.{uart_setup_lem}
use x.Mem.{Heap, mem_heap_size}
use x.Mem.Blocks.{unused}
use x.Mem.Regions.{Region}
use x.Mem.Account.{Accounts}
use x.Mem.Setup.{IsPlaced, mem_setup-IsValid}
use x.Thread.State.{Kernel, running, dead}
use x.Thread.Create.{thread_set_name, init_fields, thread_init, thread_runq_preinit}
use x.Sw.{Shell}
use x.Timer.Setup.{timer_created, timer_setup}
use x.Boot.{Addresses, cpu_setup, System, kernel, with_threads, setup_devices, setup_threads}
use x.Boot.Idle.{IsAlone, idle_lem}
use x.Boot.Threads.{IsStarting, start_thread_lem}

module _ ⦃lib : LinkedList⦄ where
  -- `thread_bootstrap` leaves `thread_dummy` alone.
  abbrev pub with_dummy : (ℕ → List ℕ → List ℕ) → Kernel → ℕ → Kernel
  with_dummy snprintf k d = record k {
    threads = update k.threads d (record (k.threads d) {
      state = running;
      yield = false;
      preempt_level = 1;
      priority = 0;
      joiner = none;
      name = snprintf 16 (100 ∷ 117 ∷ 109 ∷ 109 ∷ 121 ∷ []);
      stack = none;
    });
    current = d;
  }

  pub bootstrap_lem :
      (thread_start thread_idle : ℕ) (snprintf : ℕ → List ℕ → List ℕ) (k : Kernel) (heap : Heap)
      (d : ℕ)
      → ((t : ℕ) → (k.threads t).state ≡ dead)
      → (thread_runq_preinit thread_start thread_idle snprintf k heap d
          ≡ ok (with_dummy snprintf k d, heap))
        × IsAlone (with_dummy snprintf k d)
  unfolding thread_runq_preinit thread_init init_fields thread_set_name
  bootstrap_lem thread_start thread_idle snprintf k heap d gone = (
    refl,
    record {
      runs = rw (==_eq d d refl) refl;
      level = rw (==_eq d d refl) refl;
      others = λ t far. rw (==_ne d t (λ e. far (sym e))) (gone t);
    },
  )

module _ ⦃lib : LinkedList⦄ ⦃buf : ByteBuffer⦄ ⦃shell : Shell⦄ where
  pub cpu_setup_lem :
      (a : Addresses) (c : Processor)
      → (c' : Processor) × (cpu_setup a c ≡ ok c')
        × ((irq : ℕ) → irq < 16 → (c'.irq_handlers irq).fn ≡ none)
  unfolding cpu_setup
  cpu_setup_lem a c =
      let (c1, gdt) = setup_gdt_lem a.gdt c in
      let (c2, idt, gates, free, table) = setup_idt_lem a.idt a.default_handler a.isr c1 in
      (c2, ap (λ m. m >>= cpu_setup_idt a.idt a.default_handler a.isr) gdt ∙ idt, free)

  abbrev pub with_devices : System → Processor → System
  with_devices s c = record s {
    processor = c;
    console = record s.console { uart = record s.console.uart { uart_cbuf = buf.cbuf_init } };
  }

  pub devices_lem :
      (a : Addresses) (s : System) → (c : Processor) × (setup_devices a s ≡ ok (with_devices s c))
  unfolding setup_devices
  devices_lem a s =
      let (c1, cpu, free) = cpu_setup_lem a s.processor in
      let (pics, i8259) = i8259_setup_lem c1.pics in
      let (c2, i8254, others) =
        i8254_setup_lem (record c1 { pics = pics }) a.i8254_irq_handler (free 0 (omega arith)) in
      let free4 : (c2.irq_handlers 4).fn ≡ none =
        ap (λ h. h.fn) (others 4 (omega arith)) ∙ free 4 (omega arith) in
      let (c3, uart) = uart_setup_lem s.console.uart c2 a.uart_irq_handler free4 in
      (c3, rw (cpu, i8259, i8254, uart) refl)

  -- The heap is whole, and the idle thread and the timer thread are there.
  pub threads_lem :
      (a : Addresses) (snprintf : ℕ → List ℕ → List ℕ) (s : System)
      → IsAlone (kernel s)
      → IsPlaced s.heap
      → (((kernel s).current < s.heap.mem_heap)
          ⊎ (s.heap.mem_heap + mem_heap_size ≤ (kernel s).current))
      → a.timer_run ≢ 0
      → (s' : System) × (live : List Region) × (setup_threads a snprintf s ≡ ok s')
        × IsStarting s.heap.mem_heap 33545996 (kernel s') s'.heap live
        × ((kernel s').current ≡ (kernel s).current)
        × ((kernel s').eflags ≡ (kernel s).eflags)
        × ((kernel s').nr_threads ≡ 1)
        × (s'.console.uart.sent ≡ s.console.uart.sent)
  unfolding setup_threads timer_setup timer_created
  threads_lem a snprintf s alone placed outside some_fn =
      let (g, mem, valid, place) = mem_setup-IsValid s.heap placed in
      let acc : Accounts s.heap.mem_heap g [] = record {
        place = place;
        blocks = unused mem_heap_size ∷ [];
        valid = valid;
        owned = λ q. refl;
        held = tt;
      } in
      let (i, th, stack, g2, setup, v) =
        idle_lem a.thread_start a.thread_idle snprintf s.heap.mem_heap 33554432 (kernel s) g acc
          alone outside (omega arith) (omega arith) in
      let (t, k3, g3, create, w) =
        start_thread_lem a.thread_start a.thread_idle snprintf s.heap.mem_heap 33550214 _ g2 _
          a.timer_run 0 (116 ∷ 105 ∷ 109 ∷ 101 ∷ 114 ∷ []) 4096 19 v (omega arith) some_fn
          (omega arith) (omega arith) (omega arith) (omega arith) in
      (
        with_threads
            (record s {
              timers = record s.timers {
                timer_ticks = 0;
                timer_list_empty = true;
                timer_list = lib.list_init;
                locked = false;
                timer_thread = some t;
              };
            })
            k3 g3,
        _,
        rw (mem, setup, create) refl,
        w.starting,
        w.same_current,
        w.flags,
        w.counted,
        refl,
      )
