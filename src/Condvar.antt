-- ===== src/Condvar.antt =====
-- src/condvar.c: a condition variable with its mutex, and the threads that wait for it.
use x.Base.{ℕ, Bool, true, false, Option, none, some, List, [], ◌∷◌, update}
use x.Base.Outcome.{Outcome, ok, ◌>>=◌}
use x.LinkedList.{LinkedList}
use x.Thread.State.{Kernel, thread_self, thread_preempt_disable}
use x.Thread.Sched.{thread_preempt_enable, thread_sleep, thread_wakeup}
use x.Mutex.{MutexState, mutex_lock, mutex_unlock}
pub mod Signal
pub mod Quiet
pub mod Rouse
pub mod Broadcast
mod Examples

-- `struct condvar_waiter`; its list node is named by its address
pub record CondvarWaiter : Type 0 where
  pub thread : ℕ
  pub awaken : Bool

module _ ⦃lib : LinkedList⦄ where
  open lib use {Head, list_init, list_insert_tail, list_remove, nodes}

  -- The list of `struct condvar`, the waiters by address, and the mutex with the threads.
  pub record Condvar : Type 0 where
    pub base : MutexState
    pub waiters : Head
    pub waiter_at : ℕ → CondvarWaiter

  abbrev pub with_kernel : Condvar → Kernel → Condvar
  with_kernel c k = record c { base = record c.base { kernel = k } }

  unfoldable pub condvar_waiter_init : Condvar → ℕ → ℕ → Condvar
  condvar_waiter_init c waiter thread = record c {
    waiter_at = update c.waiter_at waiter (record { thread = thread; awaken = false });
  }

  unfoldable pub condvar_waiter_awaken : Condvar → ℕ → Bool
  condvar_waiter_awaken c waiter = (c.waiter_at waiter).awaken

  unfoldable pub condvar_waiter_wakeup : Condvar → ℕ → Outcome (Bool × Condvar)
  condvar_waiter_wakeup c waiter = elim (condvar_waiter_awaken c waiter) [
    | true ↦ ok (false, c)
    | false ↦ do
      k ← thread_wakeup c.base.kernel (some (c.waiter_at waiter).thread)
      let c' = with_kernel c k
      ok (
        true,
        record c' {
          waiter_at = update c'.waiter_at waiter (record (c'.waiter_at waiter) { awaken = true });
        },
      )
  ]

  unfoldable pub condvar_init : Condvar → Condvar
  condvar_init c = record c { waiters = list_init }

  -- The loop of `condvar_signal`, over the waiters that are left.
  unfoldable pub signal_loop : List ℕ → Condvar → Outcome Condvar
  signal_loop [] c = ok c
  signal_loop (waiter ∷ rest) c = do
    (awaken, c) ← condvar_waiter_wakeup c waiter
    elim awaken [ true ↦ ok c | false ↦ signal_loop rest c ]

  unfoldable pub condvar_signal : Condvar → Outcome Condvar
  condvar_signal c = do
    k ← thread_preempt_disable c.base.kernel
    c ← signal_loop (nodes c.waiters) (with_kernel c k)
    k ← thread_preempt_enable c.base.kernel
    ok (with_kernel c k)

  -- The loop of `condvar_broadcast`.
  unfoldable pub broadcast_loop : List ℕ → Condvar → Outcome Condvar
  broadcast_loop [] c = ok c
  broadcast_loop (waiter ∷ rest) c = do
    (awaken, c) ← condvar_waiter_wakeup c waiter
    broadcast_loop rest c

  unfoldable pub condvar_broadcast : Condvar → Outcome Condvar
  condvar_broadcast c = do
    k ← thread_preempt_disable c.base.kernel
    c ← broadcast_loop (nodes c.waiters) (with_kernel c k)
    k ← thread_preempt_enable c.base.kernel
    ok (with_kernel c k)

  unfoldable pub condvar_sleep : Condvar → Outcome Condvar
  condvar_sleep c = do k ← thread_sleep c.base.kernel; ok (with_kernel c k)

  -- `condvar_wait`, whose local variable `waiter` is at an address, up to the switch of the first
  -- `thread_sleep`.
  unfoldable pub condvar_wait : Condvar → ℕ → Outcome Condvar
  condvar_wait c waiter = do
    let c1 = condvar_waiter_init c waiter (thread_self c.base.kernel)
    k ← thread_preempt_disable c1.base.kernel
    s ← mutex_unlock (record c1.base { kernel = k })
    condvar_sleep (record c1 { base = s; waiters = list_insert_tail c1.waiters waiter })

  -- The loop of `condvar_wait` behind `thread_sleep`: once more to sleep, up to the switch, or on to
  -- `thread_preempt_enable`, which may switch threads too.
  unfoldable pub condvar_wait_turn : Condvar → ℕ → Outcome Condvar
  condvar_wait_turn c waiter = elim (condvar_waiter_awaken c waiter) [
    | false ↦ condvar_sleep c
    | true ↦ do
      let c1 = record c { waiters = list_remove c.waiters waiter }
      k ← thread_preempt_enable c1.base.kernel
      ok (with_kernel c1 k)
  ]

  -- The end of `condvar_wait`, with the address of the waiter of `mutex_lock`.
  unfoldable pub condvar_relock : Condvar → ℕ → Outcome Condvar
  condvar_relock c mutex_waiter = do s ← mutex_lock c.base mutex_waiter; ok (record c { base = s })
