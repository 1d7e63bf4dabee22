-- ===== src/Mutex/Session.antt =====
-- Two threads use a mutex of src/mutex.c, from the small system of Thread/Runs: thread 2 takes it and
-- yields, thread 3 waits for it, and thread 2 unlocks it.
use x.Base.{ℕ, ◌≢◌, ◌<◌, subst, count, ◌≡◌, refl, false, none, some, [], ◌∷◌, arith}
use x.Base.Outcome.{Outcome, ok}
use x.LinkedList.{sequences}
use x.Cpu.Flags.{
  cpu_intr_disable, cpu_intr_enable, cpu_intr_enabled, cpu_intr_save, cpu_intr_restore,
}
use x.Thread.State.{
  Kernel, running, thread_is_running, thread_is_dead, thread_set_state, thread_set_running,
  thread_set_sleeping, thread_should_yield, thread_set_yield, thread_clear_yield,
  thread_get_priority, thread_self, thread_set_point, thread_preempt_disable,
  thread_preempt_enable_no_yield, thread_preempt_enabled, thread_scheduler_locked,
  thread_lock_scheduler,
}
use x.Thread.Runq.{
  thread_list_enqueue, thread_list_dequeue, thread_list_empty, thread_runq_get_list, enqueue,
  thread_runq_put_prev, search_lists, thread_runq_get_next, thread_runq_add,
  thread_remove_from_list, thread_runq_remove, thread_runq_schedule,
}
use x.Thread.Sched.{
  thread_yield, thread_yield_if_needed, thread_preempt_enable, thread_unlock_scheduler,
  thread_sleep, thread_wakeup, thread_main, thread_resume_at, thread_resume,
}
use x.Thread.Park.{presence}
use x.Thread.System.{IsLoaded}
use x.Thread.Trace.{yields}
use x.Thread.Runs.{at, at-IsSystem}
use x.Mutex.{
  MutexState, mutex_waiter_init, mutex_waiter_wakeup, mutex_set_owner, mutex_clear_owner,
  mutex_take, mutex_sleep, mutex_lock, mutex_lock_turn, mutex_wake_first, mutex_unlock,
}
use x.Mutex.Trace.{
  IsAwake, IsUsed, MutexReach, start, more, locks, unlocks, others, resumes, MutexReach-exclusive,
  MutexReach-woken,
}

abbrev free : MutexState
free = record {
  kernel = at 0;
  mutex = record { waiters = []; owner = none; locked = false };
  waiter_threads = λ w. 0;
}

-- The state that a call returns.
abbrev result : Outcome MutexState → MutexState
result (ok s) = s
result _ = free

abbrev kernel_of : MutexState → Outcome Kernel → MutexState
kernel_of s (ok k) = record s { kernel = k }
kernel_of s _ = s

abbrev locked : MutexState
locked = result (mutex_lock free 50)

abbrev yielded : MutexState
yielded = kernel_of locked (thread_yield locked.kernel)

abbrev resumed : MutexState
resumed = kernel_of yielded (thread_resume yielded.kernel)

abbrev asleep : MutexState
asleep = result (mutex_lock resumed 100)

abbrev back : MutexState
back = kernel_of asleep (thread_resume asleep.kernel)

abbrev unlocked : MutexState
unlocked = result (mutex_unlock back)

free-IsUsed : IsUsed free [] []
free-IsUsed = record {
  base = record {
    system = at-IsSystem 0;
    exclusive = refl;
    flag = refl;
    waiting = record {
      once = λ w. omega arith;
      waits = λ w c. absurd (omega arith);
      woken = λ w off e. cc;
    };
  };
  queue = refl;
}

nobody : (s : MutexState) → IsAwake s []
nobody s w c e = omega arith

waiter_of : (w : ℕ) → 0 < count w (100 ∷ []) → 100 ≡ w
waiter_of w c = ground arith

-- The run up to the sleep of thread 3, and on to the end of mutex_unlock.
session :
    MutexReach free [] [] asleep (2 ∷ []) (100 ∷ [])
    × MutexReach free [] [] unlocked [] (100 ∷ [])
    × (unlocked.mutex.locked ≡ false)
unfolding cpu_intr_disable cpu_intr_enable cpu_intr_enabled cpu_intr_save cpu_intr_restore
    thread_is_running thread_is_dead thread_set_state thread_set_running thread_set_sleeping
    thread_should_yield thread_set_yield thread_clear_yield thread_get_priority thread_self
    thread_set_point thread_preempt_disable thread_preempt_enable_no_yield thread_preempt_enabled
    thread_scheduler_locked thread_lock_scheduler thread_list_enqueue thread_list_dequeue
    thread_list_empty thread_runq_get_list enqueue thread_runq_put_prev search_lists
    thread_runq_get_next thread_runq_add thread_remove_from_list thread_runq_remove
    thread_runq_schedule thread_yield thread_yield_if_needed thread_preempt_enable
    thread_unlock_scheduler thread_sleep thread_wakeup thread_main thread_resume_at thread_resume
    mutex_waiter_init mutex_waiter_wakeup mutex_set_owner mutex_clear_owner mutex_take mutex_sleep
    mutex_lock mutex_lock_turn mutex_wake_first mutex_unlock
session =
    let yielded-IsLoaded : IsLoaded yielded.kernel = record {
      point = tt;
      level = refl;
      off = refl;
    } in
    let asleep-IsLoaded : IsLoaded asleep.kernel = record {
      point = tt;
      level = refl;
      off = refl;
    } in
    let back-IsAwake : IsAwake back (100 ∷ []) = λ w c.
      subst (λ w. back.waiter_threads w ≢ back.kernel.current) (waiter_of w c) (λ e. omega arith) in
    let to_locked : MutexReach free [] [] locked (2 ∷ []) [] =
      more start (locks 50 refl refl (λ e. omega arith) refl (nobody free) refl) in
    let to_resumed : MutexReach free [] [] resumed (2 ∷ []) [] =
      more (more to_locked (others {k' = yielded.kernel} (nobody locked) (yields refl refl)))
        (resumes {k' = resumed.kernel} yielded-IsLoaded refl) in
    let to_asleep : MutexReach free [] [] asleep (2 ∷ []) (100 ∷ []) =
      more to_resumed (locks 100 refl refl (λ e. omega arith) refl (nobody resumed) refl) in
    (
      to_asleep,
      more (more to_asleep (resumes {k' = back.kernel} asleep-IsLoaded refl))
          (unlocks refl (omega arith) (omega arith) (omega arith) back-IsAwake refl),
      refl,
    )

MutexReach-exclusive_example : (asleep.mutex.owner ≡ some 2) × (◌≡◌ {A = ℕ} 2 2)
MutexReach-exclusive_example =
    MutexReach-exclusive 2 2 free-IsUsed session.0 (omega arith) (omega arith)

MutexReach-woken_example :
    (unlocked.mutex.waiters ≡ 100 ∷ [])
    × ((unlocked.kernel.threads (unlocked.waiter_threads 100)).state ≡ running)
    × (presence unlocked.kernel (unlocked.waiter_threads 100) ≡ 1)
MutexReach-woken_example = MutexReach-woken 100 free-IsUsed session.1 session.2 refl
