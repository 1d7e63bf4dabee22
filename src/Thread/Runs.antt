-- ===== src/Thread/Runs.antt =====
-- The theorems on the scheduler of src/thread.c at a small system: thread 1 is the idle thread, thread
-- 2 runs, thread 3 was created with the same priority and waits, and thread 4 sleeps.
use x.Base.{
  ℕ, ◌<◌, ◌≡◌, ◌≢◌, refl, false, none, some, [], ◌∷◌, List, arith, ◌==◌, ==_eq, ==_ne,
  if◌then◌else◌, count, inl,
}
use x.Base.Outcome.{ok}
use native.Mathlib.Decide.{ℕ_discrete}
use x.LinkedList.{sequences}
use x.Thread.State.{
  Kernel, Thread, ThreadState, Point, running, sleeping, dead, in_code, at_start, after_sleep,
}
use x.Thread.Sched.{thread_sleep, thread_exit, thread_wakeup, thread_resume}
use x.Thread.Next.{IsReady}
use x.Thread.Park.{IsScheduled}
use x.Thread.Wakeup.{Woken, wakeup_lem}
use x.Thread.Leave.{Left, sleep_lem}
use x.Thread.Exit.{Exited, exit_lem}
use x.Thread.Resume.{IsBack, resume_lem}
use x.Thread.Enable.{Continued}
use x.Thread.Create.{thread_join}
use x.Thread.Join.{Awaits, join_lem}
use x.Thread.Trace.{Reach, start, more, sleeps, resumes, Reach-IsSystem, Reach-dead}
use x.Thread.System.{Resumable, IsOrderly, IsSystem}

abbrev thread_with : ThreadState → ℕ → ℕ → Point → Thread
thread_with state level priority point = record {
  state = state;
  yield = false;
  preempt_level = level;
  priority = priority;
  joiner = none;
  name = [];
  stack = none;
  sp = 0;
  point = point;
}

abbrev pub threads_at : ℕ → ℕ → Thread
threads_at level t =
    if t == 1
    then thread_with running 1 0 at_start
    else if t == 2
    then thread_with running level 5 in_code
    else if t == 3
    then thread_with running 1 5 at_start
    else if t == 4
    then thread_with sleeping 1 5 (after_sleep 0x202)
    else thread_with dead 0 0 in_code

abbrev lists_at : ℕ → List ℕ
lists_at p = if p == 5 then 3 ∷ [] else []

-- Thread 2 at a preemption level.
abbrev pub at : ℕ → Kernel
at level = record {
  threads = threads_at level;
  current = 2;
  nr_threads = 2;
  lists = lists_at;
  idle = 1;
  eflags = 0x202;
}

at-IsReady : (level p t : ℕ) → 0 < count t (lists_at p) → IsReady (at level) p t
at-IsReady level p t c = record {
  runs = ground arith;
  priority = ground arith;
  not_idle = ground arith;
}

at-IsScheduled : (level : ℕ) → IsScheduled (at level)
at-IsScheduled level = record {
  queue = record { once = λ p t lt. ground arith; member = λ p t lt c. at-IsReady level p t c };
  apart = λ p lt. ground arith;
  bounded = λ busy. omega arith;
  idle_runs = refl;
  counted = refl;
}

waits_at :
    (level t : ℕ)
    → t ≢ 2
    → (threads_at level t).state ≢ dead
    → ((threads_at level t).preempt_level ≡ 1) × Resumable (threads_at level t).point
waits_at level t other alive = elim (ℕ_discrete t 1) [
  | yes e ↦ rw (==_eq t 1 e) (refl, tt)
  | no one ↦ elim (ℕ_discrete t 3) [
    | yes e ↦ rw (==_ne t 1 one, ==_ne t 2 other, ==_eq t 3 e) (refl, tt)
    | no three ↦ elim (ℕ_discrete t 4) [
      | yes e ↦ rw (==_ne t 1 one, ==_ne t 2 other, ==_ne t 3 three, ==_eq t 4 e) (refl, tt)
      | no four ↦
          absurd (alive (rw (==_ne t 1 one, ==_ne t 2 other, ==_ne t 3 three, ==_ne t 4 four) refl))
    ]
  ]
]

at-IsOrderly : (level : ℕ) → IsOrderly (at level)
at-IsOrderly level = record {
  scheduled = at-IsScheduled level;
  bounded = λ t alive busy. ground arith;
  present = λ t runs busy. ground arith;
  waits = λ t other alive. waits_at level t other alive;
}

pub at-IsSystem : (level : ℕ) → IsSystem (at level)
at-IsSystem level = record { orderly = at-IsOrderly level; runs = refl; now = inl refl }

wakeup_lem_example : (k' : Kernel) × (thread_wakeup (at 0) (some 4) ≡ ok k') × Woken (at 0) 4 k'
wakeup_lem_example =
    wakeup_lem (at 0) 4 (at-IsSystem 0) refl (omega arith) (omega arith) (λ e. cc)
      (λ e. omega arith) (λ e. omega arith)

sleep_lem_example :
    (k' : Kernel) × (thread_sleep (at 1) ≡ ok k')
    × Left (at 1) (record (threads_at 1 2) { state = sleeping; point = after_sleep 0x202 }) k'
sleep_lem_example = sleep_lem (at 1) (at-IsSystem 1) refl (λ e. omega arith)

exit_lem_example : (k' : Kernel) × (thread_exit (at 0) ≡ ok k') × Exited (at 0) k'
exit_lem_example = exit_lem (at 0) (at-IsSystem 0) refl (λ e. omega arith) (omega arith) tt

-- Thread 2 sleeps: thread 3, of the highest priority, is loaded.
slept :
    (k' : Kernel) × (thread_sleep (at 1) ≡ ok k')
    × Left (at 1) (record (threads_at 1 2) { state = sleeping; point = after_sleep 0x202 }) k'
slept = sleep_lem (at 1) (at-IsSystem 1) refl (λ e. omega arith)

resume_lem_example :
    (k' : Kernel) × (thread_resume slept.0 ≡ ok k')
    × Continued slept.0 k'
    × IsBack slept.0.current (slept.0.threads slept.0.current).point k'
resume_lem_example = resume_lem slept.0 slept.2.system slept.2.loaded

asleep : (k' : Kernel) × Reach (at 1) k'
asleep =
    let (k2, run, c, back) = resume_lem slept.0 slept.2.system slept.2.loaded in
    (
      k2,
      more (more start (sleeps refl refl (λ e. omega arith) slept.1)) (resumes slept.2.loaded run),
    )

Reach-IsSystem_example : IsSystem asleep.0
Reach-IsSystem_example = Reach-IsSystem (at-IsSystem 1) asleep.1

Reach-dead_example : ((asleep.0.threads 9).state ≡ dead) × (9 ≢ asleep.0.current)
Reach-dead_example = Reach-dead 9 (at-IsSystem 1) asleep.1 refl

join_lem_example :
    (k' : Kernel) × (thread_join (at 0) 4 ≡ ok (0x202, k')) × IsSystem k' × Awaits (at 0) 4 k'
join_lem_example = join_lem (at 0) 4 (at-IsSystem 0) refl refl (λ e. omega arith) (λ e. omega arith)
