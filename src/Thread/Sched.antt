-- ===== src/Thread/Sched.antt =====
-- The scheduler interface of src/thread.c: yield, sleep, wake up, exit.
use x.Base.{ℕ, Bool, true, false, not, Option, none, some, ◌==◌, if◌then◌else◌}
use x.Base.Outcome.{Outcome, ok, panic, ◌>>=◌, ◌>>◌, assert}
use x.LinkedList.{LinkedList}
use x.Cpu.Flags.{cpu_intr_enable, cpu_intr_save, cpu_intr_restore}
use x.Thread.State.{
  Kernel, Point, in_code, at_start, after_yield, after_sleep, after_exit, thread_is_running,
  thread_is_dead, thread_set_running, thread_set_sleeping, thread_set_dead, thread_should_yield,
  thread_clear_yield, thread_self, thread_set_point, thread_preempt_enable_no_yield,
  thread_preempt_enabled, thread_scheduler_locked, thread_lock_scheduler,
}
use x.Thread.Runq.{thread_runq_add, thread_runq_get_next, thread_runq_schedule}

module _ ⦃lib : LinkedList⦄ where
  -- Up to the switch; the rest of the function runs when the thread is scheduled again.
  unfoldable pub thread_yield : Kernel → Outcome Kernel
  thread_yield k = if not (thread_preempt_enabled k) then ok k else do
    (eflags, k) ← thread_lock_scheduler k
    thread_runq_schedule (thread_clear_yield k (thread_self k)) (after_yield eflags)

  unfoldable pub thread_yield_if_needed : Kernel → Outcome Kernel
  thread_yield_if_needed k = if thread_should_yield k (thread_self k) then thread_yield k else ok k

  unfoldable pub thread_preempt_enable : Kernel → Outcome Kernel
  thread_preempt_enable k = do k ← thread_preempt_enable_no_yield k; thread_yield_if_needed k

  unfoldable pub thread_unlock_scheduler : Kernel → ℕ → Bool → Outcome Kernel
  thread_unlock_scheduler k eflags yield =
      let k' = record k { eflags = cpu_intr_restore k.eflags eflags } in
      if yield then thread_preempt_enable k' else thread_preempt_enable_no_yield k'

  unfoldable pub thread_sleep : Kernel → Outcome Kernel
  thread_sleep k = do
    let thread = thread_self k
    let (eflags, off) = cpu_intr_save k.eflags
    let k' = record k { eflags = off }
    assert (thread_is_running k' thread)
    thread_runq_schedule (thread_set_sleeping k' thread) (after_sleep eflags)

  unfoldable pub thread_wakeup : Kernel → Option ℕ → Outcome Kernel
  thread_wakeup k none = ok k
  thread_wakeup k (some thread) = if thread == thread_self k then ok k else do
    (eflags, k) ← thread_lock_scheduler k
    k ← if thread_is_running k thread then ok k else do
      assert (not (thread_is_dead k thread))
      thread_runq_add (thread_set_running k thread) thread
    thread_unlock_scheduler k eflags true

  unfoldable pub thread_exit : Kernel → Outcome Kernel
  thread_exit k = do
    let thread = thread_self k
    assert (thread_preempt_enabled k)
    (eflags, k) ← thread_lock_scheduler k
    assert (thread_is_running k thread)
    k ← thread_wakeup (thread_set_dead k thread) (k.threads thread).joiner
    thread_runq_schedule k after_exit

  -- `thread_main`, up to the call of the thread's function.
  unfoldable pub thread_main : Kernel → Outcome Kernel
  thread_main k = do
    assert (thread_scheduler_locked k)
    assert ((k.threads (thread_self k)).preempt_level == 1)
    thread_preempt_enable (record k { eflags = cpu_intr_enable k.eflags })

  -- What the current thread does first, once its context is loaded.
  unfoldable pub thread_resume_at : Kernel → Point → Outcome Kernel
  thread_resume_at k in_code = ok k
  thread_resume_at k at_start = thread_main k
  thread_resume_at k (after_yield eflags) = thread_unlock_scheduler k eflags false
  thread_resume_at k (after_sleep eflags) = do
    assert (thread_is_running k (thread_self k))
    ok (record k { eflags = cpu_intr_restore k.eflags eflags })
  thread_resume_at k after_exit = panic

  unfoldable pub thread_resume : Kernel → Outcome Kernel
  thread_resume k =
      thread_resume_at (thread_set_point k (thread_self k) in_code)
        (k.threads (thread_self k)).point

  unfoldable pub thread_enable_scheduler : Kernel → Outcome Kernel
  thread_enable_scheduler k = do
    (thread, k) ← thread_runq_get_next k
    assert ((k.threads thread).preempt_level == 1)
    ok k
