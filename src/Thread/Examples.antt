-- ===== src/Thread/Examples.antt =====
-- The theorems on src/thread.c at a small system: thread 1 is the idle thread, thread 2 runs, and
-- thread 3 waits with a higher priority.
use x.Base.{ℕ, ◌<◌, ◌≡◌, refl, true, false, none, [], ◌∷◌, List, arith, ◌==◌, if◌then◌else◌, count}
use x.Base.Outcome.{ok}
use x.LinkedList.{sequences}
use x.Cpu.Flags.{cpu_intr_enabled}
use x.Thread.State.{
  Kernel, Thread, running, in_code, after_yield, thread_scheduler_locked, thread_preempt_enabled,
  thread_self,
}
use x.Thread.Runq.{thread_runq_schedule}
use x.Thread.Next.{IsReady}
use x.Thread.Park.{IsScheduled}
use x.Thread.Schedule.{Switched, schedule-Switched}

abbrev thread_at : ℕ → Thread
thread_at t = record {
  state = running;
  yield = false;
  preempt_level = 1;
  priority = if t == 3 then 5 else if t == 2 then 3 else 0;
  joiner = none;
  name = [];
  stack = none;
  sp = 0;
  point = in_code;
}

abbrev waiting : ℕ → List ℕ
waiting p = if p == 5 then 3 ∷ [] else []

abbrev small : Kernel
small = record {
  threads = thread_at;
  current = 2;
  nr_threads = 2;
  lists = waiting;
  idle = 1;
  eflags = 2;
}

waiting-IsReady : (p t : ℕ) → 0 < count t (waiting p) → IsReady small p t
waiting-IsReady p t c = record { runs = refl; priority = ground arith; not_idle = ground arith }

small-IsScheduled : IsScheduled small
small-IsScheduled = record {
  queue = record { once = λ p t lt. ground arith; member = λ p t lt c. waiting-IsReady p t c };
  apart = λ p lt. ground arith;
  bounded = λ busy. omega arith;
  idle_runs = refl;
  counted = refl;
}

small-locked : thread_scheduler_locked small ≡ true
unfolding thread_scheduler_locked thread_preempt_enabled thread_self cpu_intr_enabled
small-locked = refl

schedule-Switched_example :
    (k' : Kernel) × (thread_runq_schedule small (after_yield 0x202) ≡ ok k')
    × Switched small (after_yield 0x202) k'
schedule-Switched_example =
    schedule-Switched small (after_yield 0x202) small-IsScheduled small-locked refl
