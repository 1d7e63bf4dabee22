-- ===== src/Thread/State.antt =====
-- The data of src/thread.c: the fields of a thread, and the run queue of the only processor.
use x.Base.{ℕ, ◌-◌, Bool, true, false, not, ◌&&◌, Option, List, ◌==◌, update}
use x.Base.Word.{add32}
use x.Base.Outcome.{Outcome, ok, ◌>>=◌, ◌>>◌, assert}
use x.LinkedList.{LinkedList}
use x.Cpu.Flags.{cpu_intr_enabled, cpu_intr_save}

abbrev pub thread_nr_priorities : ℕ
thread_nr_priorities = 20

abbrev pub thread_idle_priority : ℕ
thread_idle_priority = 0

pub data ThreadState : Type 0 where
  running sleeping dead : ThreadState

-- Where a thread goes on when its context is loaded: what its stack holds. A thread in the middle of
-- its own code has no such point.
pub data Point : Type 0 where
  in_code : Point
  at_start : Point  -- `thread_start`, which calls `thread_main`
  after_yield : (eflags : ℕ) → Point  -- in `thread_yield`, behind the switch
  after_sleep : (eflags : ℕ) → Point  -- in `thread_sleep`, behind the switch
  after_exit : Point  -- in `thread_exit`, behind the switch

-- `struct thread`; its list node is named by the thread itself
pub record Thread : Type 0 where
  pub state : ThreadState
  pub yield : Bool
  pub preempt_level : ℕ
  pub priority : ℕ
  pub joiner : Option ℕ
  pub name : List ℕ
  pub stack : Option ℕ
  pub sp : ℕ
  pub point : Point

module _ ⦃lib : LinkedList⦄ where
  open lib use {Head}

  -- `struct thread_runq` with the threads, by address, and the flags of the processor.
  pub record Kernel : Type 0 where
    pub threads : ℕ → Thread
    pub current : ℕ
    pub nr_threads : ℕ
    pub lists : ℕ → Head
    pub idle : ℕ
    pub eflags : ℕ

  abbrev pub put : Kernel → ℕ → Thread → Kernel
  put k t th = record k { threads = update k.threads t th }

  unfoldable pub thread_is_running : Kernel → ℕ → Bool
  thread_is_running k t = elim (k.threads t).state [ running ↦ true | _ ↦ false ]

  unfoldable pub thread_is_dead : Kernel → ℕ → Bool
  thread_is_dead k t = elim (k.threads t).state [ dead ↦ true | _ ↦ false ]

  unfoldable pub thread_set_state : Kernel → ℕ → ThreadState → Kernel
  thread_set_state k t s = put k t (record (k.threads t) { state = s })

  unfoldable pub thread_set_running : Kernel → ℕ → Kernel
  thread_set_running k t = thread_set_state k t running

  unfoldable pub thread_set_sleeping : Kernel → ℕ → Kernel
  thread_set_sleeping k t = thread_set_state k t sleeping

  unfoldable pub thread_set_dead : Kernel → ℕ → Kernel
  thread_set_dead k t = thread_set_state k t dead

  unfoldable pub thread_should_yield : Kernel → ℕ → Bool
  thread_should_yield k t = (k.threads t).yield

  unfoldable pub thread_set_yield : Kernel → ℕ → Kernel
  thread_set_yield k t = put k t (record (k.threads t) { yield = true })

  unfoldable pub thread_clear_yield : Kernel → ℕ → Kernel
  thread_clear_yield k t = put k t (record (k.threads t) { yield = false })

  unfoldable pub thread_get_priority : Kernel → ℕ → ℕ
  thread_get_priority k t = (k.threads t).priority

  abbrev thread_runq_get_current : Kernel → ℕ
  thread_runq_get_current k = k.current

  unfoldable pub thread_self : Kernel → ℕ
  thread_self k = thread_runq_get_current k

  abbrev thread_name : Kernel → ℕ → List ℕ
  thread_name k t = (k.threads t).name

  unfoldable pub thread_set_point : Kernel → ℕ → Point → Kernel
  thread_set_point k t p = put k t (record (k.threads t) { point = p })

  unfoldable pub thread_preempt_disable : Kernel → Outcome Kernel
  thread_preempt_disable k = do
    let t = k.threads (thread_self k)
    let level = add32 t.preempt_level 1
    assert (not (level == 0))
    ok (put k (thread_self k) (record t { preempt_level = level }))

  unfoldable pub thread_preempt_enable_no_yield : Kernel → Outcome Kernel
  thread_preempt_enable_no_yield k = do
    let t = k.threads (thread_self k)
    assert (not (t.preempt_level == 0))
    ok (put k (thread_self k) (record t { preempt_level = t.preempt_level - 1 }))

  unfoldable pub thread_preempt_enabled : Kernel → Bool
  thread_preempt_enabled k = (k.threads (thread_self k)).preempt_level == 0

  unfoldable pub thread_scheduler_locked : Kernel → Bool
  thread_scheduler_locked k = not (cpu_intr_enabled k.eflags) && not (thread_preempt_enabled k)

  -- The flags to restore, and the state with preemption and interrupts off.
  unfoldable pub thread_lock_scheduler : Kernel → Outcome (ℕ × Kernel)
  thread_lock_scheduler k = do
    k ← thread_preempt_disable k
    let (eflags, off) = cpu_intr_save k.eflags
    ok (eflags, record k { eflags = off })
