-- ===== src/Boot/Main.antt =====
-- `main` of src/main.c from its first call to its last.
use x.Base.{
  ℕ, ◌+◌, ◌≤◌, ◌<◌, ◌≡◌, ◌≢◌, refl, ap, sym, ◌∙◌, subst, false, ◌⊎◌, List, ◌++◌, arith, count,
}
use x.Base.Outcome.{Outcome, ok}
use x.LinkedList.{LinkedList}
use x.Cpu.Flags.{cpu_intr_enabled}
use x.Uart.{ByteBuffer}
use x.Mem.{mem_heap_size}
use x.Mem.Regions.{Region}
use x.Mem.Setup.{IsPlaced}
use x.Thread.State.{dead}
use x.Thread.System.{IsLoaded, IsSystem}
use x.Printf.{printf}
use x.Printf.Output.{sent_bytes, printed}
use x.Printf.Panic.{Prints, vprintf_held}
use x.Sw.{Shell, shell_cmds, register_cmds}
use x.Sw.Setup.{initial, sw_setup_lem}
use x.Boot.{Addresses, System, kernel, with_threads, finish, main}
use x.Boot.Booting.{IsBooting}
use x.Boot.Enable.{without, enable_lem}
use x.Boot.Threads.{IsStarting}
use x.Boot.Start.{with_dummy, bootstrap_lem, with_devices, devices_lem, threads_lem}

module _ ⦃lib : LinkedList⦄ ⦃buf : ByteBuffer⦄ ⦃shell : Shell⦄ where
  open lib use {nodes}
  open shell use {Commands}

  -- What the copied `shell_setup` does: it may create threads, and the commands of the stopwatch can
  -- be registered after it.
  pub record ShellStarted (a : Addresses) (base : ℕ) (s s' : System) : Type 0 where
    pub left : ℕ
    pub live : List Region
    pub starting : IsStarting base left (kernel s') s'.heap live
    pub same_current : (kernel s').current ≡ (kernel s).current
    pub flags : (kernel s').eflags ≡ (kernel s).eflags
    pub commands : Commands
    pub registers :
        register_cmds a.sw_timer a.sw_functions (shell_cmds a.sw_timer a.sw_functions) s'.commands
        ≡ ok commands
    pub silent : s'.console.uart.sent ≡ s.console.uart.sent

  abbrev pub ShellStarts : Addresses → (System → Outcome System) → Type 0
  ShellStarts a shell_setup =
      (base : ℕ) (s : System) (live : List Region)
      → IsStarting base 33545996 (kernel s) s.heap live
      → (kernel s).nr_threads ≡ 1
      → (s' : System) × (shell_setup s ≡ ok s') × ShellStarted a base s s'

  module _ (a : Addresses) (snprintf : ℕ → List ℕ → List ℕ) {Args : Type 0}
      (vsnprintf : (ℕ → ℕ) → ℕ → List ℕ → Args → ℕ × (ℕ → ℕ)) (text : List ℕ → Args → List ℕ)
      (message : List ℕ) (args : Args) (prints : Prints vsnprintf text) where
    -- The first thread is loaded, and `thread_dummy` is gone.
    pub record Up (d : ℕ) (s s' : System) : Type 0 where
      pub system : IsSystem (without d (kernel s'))
      pub loaded : IsLoaded (without d (kernel s'))
      pub other : (kernel s').current ≢ d
      pub highest :
          (p t : ℕ)
          → p < 20
          → 0 < count t (nodes ((kernel s').lists p))
          → ((kernel s').current ≢ (kernel s').idle)
            × (p ≤ ((kernel s').threads (kernel s').current).priority)
      pub greets : s'.console.uart.sent ≡ s.console.uart.sent ++ sent_bytes (text message args)

    finish_lem :
        (s : System) (c' : Commands)
        → IsBooting (kernel s)
        → cpu_intr_enabled (kernel s).eflags ≡ false
        → register_cmds a.sw_timer a.sw_functions (shell_cmds a.sw_timer a.sw_functions) s.commands
          ≡ ok c'
        → (s' : System) × (finish a snprintf vsnprintf message args s ≡ ok s')
          × Up (kernel s).current s s'
    unfolding finish printf
    finish_lem s c' b off registers =
        let sync = s.stopwatch.sync in
        let stopwatch = record s.stopwatch {
          timers = s.timers;
          sync = record sync { base = record sync.base { kernel = kernel s } };
        } in
        let ready = initial a.sw_timer a.sw_functions stopwatch in
        let sw = sw_setup_lem a.sw_timer a.sw_functions stopwatch s.commands c' registers in
        let print =
          vprintf_held vsnprintf text s.console message args prints (omega (arith, b.level))
            (omega (arith, b.level)) in
        let (k', enable, system, loaded, other, highest) = enable_lem (kernel s) b off in
        let console = printed vsnprintf s.console message args (text message args) (kernel s) in
        (
          with_threads
              (record s {
                stopwatch = ready;
                timers = ready.timers;
                commands = c';
                console = console;
              })
              k' s.heap,
          rw (sw, print, enable) refl,
          record {
            system = system;
            loaded = loaded;
            other = other;
            highest = highest;
            greets = refl;
          },
        )

    -- From zeroed memory with interrupts off, with the heap aligned, not at NULL and below
    -- the end of the address space, `thread_dummy` outside of it, a function for the timer
    -- thread, a vsnprintf that leaves a string in the buffer, and a `shell_setup` that
    -- leaves the threads and the heap in the order in which it finds them, perhaps with
    -- more threads, and the commands of the stopwatch to be registered: main fails no
    -- assertion, does not panic, and gets to the context of its first thread. Memory is
    -- enough for its threads, its message is what was sent to the port, the thread is
    -- ready, of the highest priority among the threads in the run queue, and not
    -- `thread_dummy`, and the system without `thread_dummy` is in order.
    pub main_lem :
        (shell_setup : System → Outcome System) (s : System)
        → ((t : ℕ) → ((kernel s).threads t).state ≡ dead)
        → cpu_intr_enabled (kernel s).eflags ≡ false
        → IsPlaced s.heap
        → ((a.thread_dummy < s.heap.mem_heap) ⊎ (s.heap.mem_heap + mem_heap_size ≤ a.thread_dummy))
        → a.timer_run ≢ 0
        → ShellStarts a shell_setup
        → (s' : System) × (main a snprintf vsnprintf shell_setup message args s ≡ ok s')
          × Up a.thread_dummy s s'
    unfolding main
    main_lem shell_setup s zeroed off placed outside some_fn shell_starts =
        let (boot, alone) =
          bootstrap_lem a.thread_start a.thread_idle snprintf (kernel s) s.heap a.thread_dummy
            zeroed in
        let k1 = with_dummy snprintf (kernel s) a.thread_dummy in
        let (c, devices) = devices_lem a (with_threads s k1 s.heap) in
        let s2 = with_devices (with_threads s k1 s.heap) c in
        let (s3, live, threads, v, current, flags, one, sent) =
          threads_lem a snprintf s2 alone placed outside some_fn in
        let (s4, shell_code, w) = shell_starts s.heap.mem_heap s3 live v one in
        let still_off : cpu_intr_enabled (kernel s4).eflags ≡ false =
          ap cpu_intr_enabled (w.flags ∙ flags) ∙ off in
        let (s', last, up) = finish_lem s4 w.commands w.starting.booting still_off w.registers in
        let dummy : (kernel s4).current ≡ a.thread_dummy = w.same_current ∙ current in
        (
          s',
          rw (boot, devices, threads, shell_code) last,
          record {
            system = subst (λ d. IsSystem (without d (kernel s'))) dummy up.system;
            loaded = subst (λ d. IsLoaded (without d (kernel s'))) dummy up.loaded;
            other = λ e. up.other (e ∙ sym dummy);
            highest = up.highest;
            greets = up.greets ∙ ap (λ l. l ++ sent_bytes (text message args)) (w.silent ∙ sent);
          },
        )
