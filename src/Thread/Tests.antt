-- ===== src/Thread/Tests.antt =====
-- Runs of the scheduler of src/thread.c: thread 1 is the idle thread, thread 2 runs, and thread 3 waits
-- with a higher priority, since it was preempted.
use x.Base.{ℕ, ◌≡◌, refl, false, none, some, [], ◌∷◌, ◌==◌, if◌then◌else◌}
use x.Base.Outcome.{Outcome, ok, ◌>>=◌}
use x.LinkedList.{sequences}
use x.Cpu.Flags.{
  cpu_intr_disable, cpu_intr_enable, cpu_intr_enabled, cpu_intr_save, cpu_intr_restore,
}
use x.Thread.State.{
  Kernel, running, in_code, after_yield, thread_is_running, thread_is_dead, thread_set_state,
  thread_set_running, thread_set_sleeping, thread_set_dead, thread_should_yield, thread_set_yield,
  thread_clear_yield, thread_get_priority, thread_self, thread_set_point, thread_preempt_disable,
  thread_preempt_enable_no_yield, thread_preempt_enabled, thread_scheduler_locked,
  thread_lock_scheduler,
}
use x.Thread.Runq.{
  thread_list_enqueue, thread_list_dequeue, thread_list_empty, thread_runq_get_list, enqueue,
  thread_runq_put_prev, search_lists, thread_runq_get_next, thread_runq_add,
  thread_remove_from_list, thread_runq_remove, thread_runq_schedule,
}
use x.Thread.Sched.{
  thread_yield, thread_yield_if_needed, thread_preempt_enable, thread_unlock_scheduler,
  thread_sleep, thread_wakeup, thread_exit, thread_main, thread_resume_at, thread_resume,
  thread_enable_scheduler,
}

abbrev before : Kernel
before = record {
  threads = λ t. record {
    state = running;
    yield = false;
    preempt_level = if t == 2 then 0 else 1;
    priority = if t == 3 then 5 else if t == 2 then 3 else 0;
    joiner = if t == 3 then some 2 else none;
    name = [];
    stack = none;
    sp = 0;
    point = if t == 2 then in_code else after_yield 0x202;
  };
  current = 2;
  nr_threads = 2;
  lists = λ p. if p == 5 then 3 ∷ [] else [];
  idle = 1;
  eflags = 0x202;
}

view : Outcome Kernel → Outcome (ℕ × ℕ × ℕ × ℕ)
view o = do k ← o; ok (k.current, k.nr_threads, k.eflags, (k.threads k.current).preempt_level)

-- Thread 2 yields to thread 3; that sleeps, and thread 2 wakes it up.
session : Outcome Kernel
session = do
  k ← thread_yield before
  k ← thread_resume k
  k ← thread_preempt_disable k
  k ← thread_sleep k
  k ← thread_resume k
  k ← thread_wakeup k (some 3)
  k ← thread_resume k
  thread_preempt_enable k

session_result : view session ≡ ok (3, 2, 0x202, 0)
unfolding view session cpu_intr_disable cpu_intr_enable cpu_intr_enabled cpu_intr_save
    cpu_intr_restore thread_is_running thread_is_dead thread_set_state thread_set_running
    thread_set_sleeping thread_set_dead thread_should_yield thread_set_yield thread_clear_yield
    thread_get_priority thread_self thread_set_point thread_preempt_disable
    thread_preempt_enable_no_yield thread_preempt_enabled thread_scheduler_locked
    thread_lock_scheduler thread_list_enqueue thread_list_dequeue thread_list_empty
    thread_runq_get_list enqueue thread_runq_put_prev search_lists thread_runq_get_next
    thread_runq_add thread_remove_from_list thread_runq_remove thread_runq_schedule thread_yield
    thread_yield_if_needed thread_preempt_enable thread_unlock_scheduler thread_sleep thread_wakeup
    thread_exit thread_main thread_resume_at thread_resume thread_enable_scheduler
session_result = refl

-- Thread 3 exits, and thread 2 goes on.
last : Outcome Kernel
last = do k ← thread_yield before; k ← thread_resume k; k ← thread_exit k; thread_resume k

last_result : view last ≡ ok (2, 1, 0x202, 0)
unfolding view last cpu_intr_disable cpu_intr_enable cpu_intr_enabled cpu_intr_save cpu_intr_restore
    thread_is_running thread_is_dead thread_set_state thread_set_running thread_set_sleeping
    thread_set_dead thread_should_yield thread_set_yield thread_clear_yield thread_get_priority
    thread_self thread_set_point thread_preempt_disable thread_preempt_enable_no_yield
    thread_preempt_enabled thread_scheduler_locked thread_lock_scheduler thread_list_enqueue
    thread_list_dequeue thread_list_empty thread_runq_get_list enqueue thread_runq_put_prev
    search_lists thread_runq_get_next thread_runq_add thread_remove_from_list thread_runq_remove
    thread_runq_schedule thread_yield thread_yield_if_needed thread_preempt_enable
    thread_unlock_scheduler thread_sleep thread_wakeup thread_exit thread_main thread_resume_at
    thread_resume thread_enable_scheduler
last_result = refl

-- The idle thread starts the scheduler, which takes the waiting thread.
start_result : view (thread_enable_scheduler before) ≡ ok (3, 2, 0x202, 1)
unfolding view thread_enable_scheduler thread_runq_get_next search_lists thread_list_empty
    thread_runq_get_list thread_list_dequeue
start_result = refl
