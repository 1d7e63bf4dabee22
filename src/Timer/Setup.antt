-- ===== src/Timer/Setup.antt =====
-- `timer_setup` of src/timer.c, which creates the timer thread.
use x.Base.{ℕ, true, false, not, Option, List, [], ◌∷◌, ◌-◌, ◌==◌, if◌then◌else◌}
use x.Base.Outcome.{Outcome, ok, panic, ◌>>=◌}
use x.LinkedList.{LinkedList}
use x.Mem.{Heap}
use x.Thread.State.{Kernel, thread_nr_priorities}
use x.Thread.Create.{thread_create}
use x.Timer.{Timers}

-- `TIMER_STACK_SIZE`
abbrev pub timer_stack_size : ℕ
timer_stack_size = 4096

-- `THREAD_MAX_PRIORITY` of src/thread.h
abbrev pub thread_max_priority : ℕ
thread_max_priority = thread_nr_priorities - 1

-- "timer"
abbrev pub timer_name : List ℕ
timer_name = 116 ∷ 105 ∷ 109 ∷ 101 ∷ 114 ∷ []

module _ ⦃lib : LinkedList⦄ (thread_start thread_idle : ℕ) (snprintf : ℕ → List ℕ → List ℕ) where
  -- What `timer_setup` makes of the error and the pointer that `thread_create` gives.
  unfoldable pub timer_created :
      Timers → ℕ × Option ℕ × Kernel × Heap → Outcome (Timers × Kernel × Heap)
  timer_created t (error, thread, k, heap) =
      if not (error == 0) then panic else ok (record t { timer_thread = thread }, k, heap)

  -- With the address of `timer_run`.
  unfoldable pub timer_setup : Timers → Kernel → Heap → ℕ → Outcome (Timers × Kernel × Heap)
  timer_setup t k heap timer_run = do
    let t1 = record t {
      timer_ticks = 0;
      timer_list_empty = true;
      timer_list = lib.list_init;
      locked = false;
    }
    created ←
        thread_create thread_start thread_idle snprintf k heap timer_run 0 timer_name
          timer_stack_size thread_max_priority
    timer_created t1 created
