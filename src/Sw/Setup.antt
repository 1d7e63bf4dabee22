-- ===== src/Sw/Setup.antt =====
-- `sw_setup` of src/sw.c, where its commands can be registered.
use x.Base.{ℕ, ◌≡◌, ap, false}
use x.Base.Outcome.{ok, ◌>>=◌}
use x.LinkedList.{LinkedList}
use x.Mutex.{mutex_init}
use x.Condvar.{condvar_init}
use x.Timer.{timer_init}
use x.Sw.{Stopwatch, Shell, SwFunctions, shell_cmds, register_cmds, sw_setup}

module _ ⦃lib : LinkedList⦄ ⦃shell : Shell⦄ where
  open shell use {Commands}

  -- The stopwatch stands still.
  abbrev pub initial : ℕ → SwFunctions → Stopwatch → Stopwatch
  initial sw_timer f s =
      let base = record s.sync.base { mutex = mutex_init s.sync.base.mutex } in
      record s {
        sync = condvar_init (record s.sync { base = base });
        timers = timer_init s.timers sw_timer f.timer_run 0;
        sw_timer_scheduled = false;
        sw_shell_waiting = false;
      }

  pub sw_setup_lem :
      (sw_timer : ℕ) (f : SwFunctions) (s : Stopwatch) (c c' : Commands)
      → register_cmds sw_timer f (shell_cmds sw_timer f) c ≡ ok c'
      → sw_setup sw_timer f s c ≡ ok (initial sw_timer f s, c')
  unfolding sw_setup
  sw_setup_lem sw_timer f s c c' registers =
      ap (λ m. m >>= λ c. ok (initial sw_timer f s, c)) registers
