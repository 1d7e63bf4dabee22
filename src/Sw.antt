-- ===== src/Sw.antt =====
-- src/sw.c: the stopwatch, on a timer, a mutex and a condition variable, and its shell commands.
use Prim.Native.String.{String}
use x.Base.{
  ℕ, ◌+◌, ◌*◌, ◌%◌, ◌^◌, Bool, true, false, not, ◌&&◌, ◌||◌, Option, none, some, List, [], ◌∷◌,
  ◌++◌, ltb, ◌==◌, if◌then◌else◌,
}
use x.Base.Word.{add32}
use x.Base.Outcome.{Outcome, ok, panic, blocked, ◌>>=◌}
use x.LinkedList.{LinkedList}
use x.Mutex.{mutex_init, mutex_lock, mutex_unlock}
use x.Condvar.{Condvar, condvar_init, condvar_signal, condvar_wait}
use x.I8254.{thread_sched_freq}
use x.Timer.{Timers, timer_ticks_occurred, timer_now, timer_init, timer_get_time, timer_schedule}
pub mod Quiet
pub mod Run
pub mod Controls
pub mod Wait
pub mod Setup
mod Examples

abbrev pub sw_display_interval : ℕ
sw_display_interval = 5

abbrev pub sw_max_wait : ℕ
sw_max_wait = 30

-- What `printf` is called with.
pub data Message : Type 0 where
  ticks : ℕ → Message
  disabled : Message
  invalid : Message

-- `struct shell_cmd`, as `SHELL_CMD_INITIALIZER` sets it; the function is an address.
pub record ShellCmd : Type 0 where
  pub name : String
  pub fn : ℕ
  pub usage : String
  pub short_desc : String

-- lib/shell.c is copied from librbraun: the commands registered, and the error of one more.
pub record Shell : Type 1 where
  pub Commands : Type 0
  pub shell_cmd_register : Commands → ShellCmd → ℕ × Commands

-- The functions by their addresses; `sw_timer_run` is a timer's function, the others are commands.
pub record SwFunctions : Type 0 where
  pub timer_run : ℕ
  pub shell_start : ℕ
  pub shell_stop : ℕ
  pub shell_resume : ℕ
  pub shell_read : ℕ
  pub shell_wait : ℕ

module _ ⦃lib : LinkedList⦄ where
  -- The static variables: the condition variable has its mutex with it, and the timers are those of
  -- src/timer.c, of which `sw_timer` is an address.
  pub record Stopwatch : Type 0 where
    pub sync : Condvar
    pub timers : Timers
    pub sw_ticks : ℕ
    pub sw_timer_scheduled : Bool
    pub sw_shell_waiting : Bool
    pub sw_wait_ticks : ℕ
    pub messages : List Message

  abbrev pub say : Stopwatch → Message → Stopwatch
  say s m = record s { messages = s.messages ++ (m ∷ []) }

  -- The functions lock the mutex with a local variable `waiter` at an address. A thread that finds it
  -- locked waits, and runs the rest of its function once the mutex is handed to it.
  unfoldable pub sw_lock : Stopwatch → ℕ → Outcome Stopwatch
  sw_lock s waiter = if s.sync.base.mutex.locked then blocked else do
    base ← mutex_lock s.sync.base waiter
    ok (record s { sync = record s.sync { base = base } })

  unfoldable pub sw_unlock : Stopwatch → Outcome Stopwatch
  sw_unlock s = do
    base ← mutex_unlock s.sync.base
    ok (record s { sync = record s.sync { base = base } })

  module _ (sw_timer : ℕ) where
    -- The end of the test for a waiting shell.
    unfoldable pub sw_notify : Stopwatch → Outcome Stopwatch
    sw_notify s =
        if not (s.sw_shell_waiting && timer_ticks_occurred s.sw_wait_ticks s.sw_ticks)
        then ok s
        else do
          sync ← condvar_signal s.sync
          ok (record s { sw_shell_waiting = false; sync = sync })

    -- The body of `sw_timer_run` for a stopwatch that runs, between the calls for the mutex.
    unfoldable pub sw_count : Stopwatch → Outcome Stopwatch
    sw_count s = do
      let s1 = record s { sw_ticks = add32 s.sw_ticks 1 }
      let s2 : Stopwatch =
          if s1.sw_ticks % (thread_sched_freq * sw_display_interval) == 0
          then say s1 (ticks s1.sw_ticks)
          else s1
      s ← sw_notify s2
      (time, timers) ← timer_get_time s.timers sw_timer
      timers ← timer_schedule timers sw_timer (add32 time 1)
      ok (record s { timers = timers })

    unfoldable pub sw_timer_run : Stopwatch → ℕ → Outcome Stopwatch
    sw_timer_run s waiter = do
      s ← sw_lock s waiter
      s ← if not s.sw_timer_scheduled then ok s else sw_count s
      sw_unlock s

    unfoldable pub sw_shell_start : Stopwatch → ℕ → Outcome Stopwatch
    sw_shell_start s waiter = do
      s ← sw_lock s waiter
      s ← if s.sw_timer_scheduled then ok s else do
        timers ← timer_schedule s.timers sw_timer (add32 (timer_now s.timers) 1)
        ok (record s { sw_ticks = 0; sw_timer_scheduled = true; timers = timers })
      sw_unlock s

    unfoldable pub sw_shell_stop : Stopwatch → ℕ → Outcome Stopwatch
    sw_shell_stop s waiter = do
      s ← sw_lock s waiter
      sw_unlock (record s { sw_timer_scheduled = false })

    unfoldable pub sw_shell_resume : Stopwatch → ℕ → Outcome Stopwatch
    sw_shell_resume s waiter = do
      s ← sw_lock s waiter
      timers ← timer_schedule s.timers sw_timer (add32 (timer_now s.timers) 1)
      sw_unlock (record s { sw_timer_scheduled = true; timers = timers })

    unfoldable pub sw_shell_read : Stopwatch → ℕ → Outcome Stopwatch
    sw_shell_read s waiter = do s ← sw_lock s waiter; sw_unlock (say s (ticks s.sw_ticks))

    -- `sw_shell_wait` with the arguments that are valid, up to the switch in `condvar_wait` if it has
    -- to wait; the local variable of that function is at an address.
    unfoldable pub sw_wait : Stopwatch → ℕ → ℕ → ℕ → Outcome Stopwatch
    sw_wait s seconds waiter cv_waiter = do
      s ← sw_lock s waiter
      if not s.sw_timer_scheduled then sw_unlock (say s disabled) else do
        sync ← condvar_wait s.sync cv_waiter
        ok (record s {
          sw_shell_waiting = true;
          sw_wait_ticks = add32 s.sw_ticks (seconds * thread_sched_freq % 2 ^ 32);
          sync = sync;
        })

    -- `sscanf` with the format "%lu" is a parameter: the number that it reads, if it reads one.
    unfoldable pub sw_shell_wait :
        (String → Option ℕ) → Stopwatch → ℕ → String → ℕ → ℕ → Outcome Stopwatch
    sw_shell_wait sscanf s argc argv1 waiter cv_waiter =
        if not (argc == 2) then ok (say s invalid) else elim (sscanf argv1) [
          | none ↦ ok (say s invalid)
          | some seconds ↦
              if ltb sw_max_wait seconds
              then ok (say s invalid)
              else sw_wait s seconds waiter cv_waiter
        ]

    -- The test of the loop of `sw_shell_wait`, behind `condvar_wait`: once more to wait, up to the
    -- switch, or on to the end.
    unfoldable pub sw_shell_wait_turn : Stopwatch → ℕ → Outcome Stopwatch
    sw_shell_wait_turn s cv_waiter = elim s.sw_shell_waiting [
      | true ↦ do sync ← condvar_wait s.sync cv_waiter; ok (record s { sync = sync })
      | false ↦ sw_unlock s
    ]

    module _ ⦃shell : Shell⦄ (f : SwFunctions) where
      open shell use {Commands, shell_cmd_register}

      abbrev pub shell_cmds : List ShellCmd
      shell_cmds =
          (record {
            name = "sw_start";
            fn = f.shell_start;
            usage = "sw_start";
            short_desc = "start the stopwatch";
          })
          ∷ (record {
            name = "sw_stop";
            fn = f.shell_stop;
            usage = "sw_stop";
            short_desc = "stop the stopwatch";
          })
          ∷ (record {
            name = "sw_resume";
            fn = f.shell_resume;
            usage = "sw_resume";
            short_desc = "resume the stopwatch";
          })
          ∷ (record {
            name = "sw_read";
            fn = f.shell_read;
            usage = "sw_read";
            short_desc = "read the stopwatch time";
          })
          ∷ (record {
            name = "sw_wait";
            fn = f.shell_wait;
            usage = "sw_wait <seconds>";
            short_desc = "wait for up to 30 seconds";
          })
          ∷ []

      -- The loop of `sw_setup`.
      unfoldable pub register_cmds : List ShellCmd → Commands → Outcome Commands
      register_cmds [] c = ok c
      register_cmds (cmd ∷ rest) c =
          let registered = shell_cmd_register c cmd in
          if not (registered.0 == 0) then panic else register_cmds rest registered.1

      unfoldable pub sw_setup : Stopwatch → Commands → Outcome (Stopwatch × Commands)
      sw_setup s c = do
        let base = record s.sync.base { mutex = mutex_init s.sync.base.mutex }
        let s1 = record s {
          sync = condvar_init (record s.sync { base = base });
          timers = timer_init s.timers sw_timer f.timer_run 0;
          sw_timer_scheduled = false;
          sw_shell_waiting = false;
        }
        c ← register_cmds shell_cmds c
        ok (s1, c)
