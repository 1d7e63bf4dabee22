-- ===== src/Mutex.antt =====
-- src/mutex.c: a mutex, and the threads that wait for it.
use x.Base.{ℕ, Bool, true, false, not, Option, none, some, ◌==◌, update, if◌then◌else◌}
use x.Base.Outcome.{Outcome, ok, undefined, ◌>>=◌, ◌>>◌, assert}
use x.LinkedList.{LinkedList}
use x.Thread.State.{Kernel, thread_self, thread_preempt_disable}
use x.Thread.Sched.{thread_preempt_enable, thread_sleep, thread_wakeup}
pub mod Own
pub mod Calls
pub mod Turn
pub mod Unlock
pub mod Trace
mod Examples
mod Session

-- `ERROR_BUSY` of src/error.h
abbrev pub error_busy : ℕ
error_busy = 5

-- Whether a pointer to a thread is `thread`, and whether it is NULL.
abbrev pub is_thread : Option ℕ → ℕ → Bool
is_thread none thread = false
is_thread (some t) thread = t == thread

abbrev pub is_null : Option ℕ → Bool
is_null none = true
is_null (some t) = false

module _ ⦃lib : LinkedList⦄ where
  open lib use {Head, list_init, list_insert_tail, list_remove, list_empty, list_first}

  -- `struct mutex`; the waiters are named by their addresses
  pub record Mutex : Type 0 where
    pub waiters : Head
    pub owner : Option ℕ
    pub locked : Bool

  -- A mutex with the threads, and the thread of the `struct mutex_waiter` at each address.
  pub record MutexState : Type 0 where
    pub kernel : Kernel
    pub mutex : Mutex
    pub waiter_threads : ℕ → ℕ

  unfoldable pub mutex_waiter_init : MutexState → ℕ → ℕ → MutexState
  mutex_waiter_init s waiter thread = record s {
    waiter_threads = update s.waiter_threads waiter thread;
  }

  unfoldable pub mutex_waiter_wakeup : MutexState → ℕ → Outcome MutexState
  mutex_waiter_wakeup s waiter = do
    k ← thread_wakeup s.kernel (some (s.waiter_threads waiter))
    ok (record s { kernel = k })

  -- The owner is left as the memory has it.
  unfoldable pub mutex_init : Mutex → Mutex
  mutex_init m = record m { waiters = list_init; locked = false }

  unfoldable pub mutex_set_owner : Mutex → ℕ → Outcome Mutex
  mutex_set_owner m thread = do
    assert (is_null m.owner)
    assert (not m.locked)
    ok (record m { owner = some thread; locked = true })

  unfoldable pub mutex_clear_owner : MutexState → Outcome MutexState
  mutex_clear_owner s = do
    assert (is_thread s.mutex.owner (thread_self s.kernel))
    assert s.mutex.locked
    ok (record s { mutex = record s.mutex { owner = none; locked = false } })

  -- The end of `mutex_lock`, with preemption disabled.
  unfoldable pub mutex_take : MutexState → ℕ → Outcome MutexState
  mutex_take s thread = do
    m ← mutex_set_owner s.mutex thread
    k ← thread_preempt_enable s.kernel
    ok (record s { kernel = k; mutex = m })

  unfoldable pub mutex_sleep : MutexState → Outcome MutexState
  mutex_sleep s = do k ← thread_sleep s.kernel; ok (record s { kernel = k })

  -- `mutex_lock`, whose local variable `waiter` is at an address, up to the switch of the first
  -- `thread_sleep` if it has to wait.
  unfoldable pub mutex_lock : MutexState → ℕ → Outcome MutexState
  mutex_lock s waiter = do
    let thread = thread_self s.kernel
    k ← thread_preempt_disable s.kernel
    let s1 = record s { kernel = k }
    elim s1.mutex.locked [
      | true ↦
          let s2 = mutex_waiter_init s1 waiter thread in
          mutex_sleep (record s2 {
            mutex = record s2.mutex { waiters = list_insert_tail s2.mutex.waiters waiter };
          })
      | false ↦ mutex_take s1 thread
    ]

  -- The loop of `mutex_lock` behind `thread_sleep`: once more to sleep, up to the switch, or on to the
  -- end.
  unfoldable pub mutex_lock_turn : MutexState → ℕ → ℕ → Outcome MutexState
  mutex_lock_turn s waiter thread = elim s.mutex.locked [
    | true ↦ mutex_sleep s
    | false ↦
        mutex_take
          (record s { mutex = record s.mutex { waiters = list_remove s.mutex.waiters waiter } })
          thread
  ]

  unfoldable pub mutex_trylock : MutexState → Outcome (ℕ × MutexState)
  mutex_trylock s = do
    k ← thread_preempt_disable s.kernel
    let s1 = record s { kernel = k }
    (error, s2) ← elim s1.mutex.locked [
      | true ↦ ok (error_busy, s1)
      | false ↦ do
        m ← mutex_set_owner s1.mutex (thread_self s1.kernel)
        ok (0, record s1 { mutex = m })
    ]
    k ← thread_preempt_enable s2.kernel
    ok (error, record s2 { kernel = k })

  -- `list_first_entry`, and the call for it.
  unfoldable pub mutex_wake_first : MutexState → Option ℕ → Outcome MutexState
  mutex_wake_first s none = undefined
  mutex_wake_first s (some waiter) = mutex_waiter_wakeup s waiter

  unfoldable pub mutex_unlock : MutexState → Outcome MutexState
  mutex_unlock s = do
    k ← thread_preempt_disable s.kernel
    s ← mutex_clear_owner (record s { kernel = k })
    s ←
        if not (list_empty s.mutex.waiters)
        then mutex_wake_first s (list_first s.mutex.waiters)
        else ok s
    k ← thread_preempt_enable s.kernel
    ok (record s { kernel = k })
