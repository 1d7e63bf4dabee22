-- ===== src/Sw/Quiet.antt =====
-- The sections of src/sw.c under its mutex, for a thread that finds the mutex free and is not told to
-- yield.
use x.Base.{ℕ, ◌<◌, ◌≡◌, refl, ap, sym, ◌∙◌, true, false, none, some, [], if◌then◌else◌}
use x.Base.Outcome.{ok, blocked, ◌>>=◌}
use x.LinkedList.{LinkedList}
use x.Thread.State.{Kernel, thread_self}
use x.Thread.Quiet.{masked, masked_quiet}
use x.Thread.Trace.{preempt_disable_lem}
use x.Mutex.{Mutex, MutexState, mutex_take, mutex_lock, mutex_unlock}
use x.Mutex.Calls.{taken, set_owner_lem}
use x.Mutex.Unlock.{released, clear_lem}
use x.Sw.{Stopwatch, sw_lock, sw_unlock}

module _ ⦃lib : LinkedList⦄ where
  open lib use {nodes, list_empty, empty-nodes}

  -- The current thread may disable preemption, and was not told to yield.
  pub record IsCalm (k : Kernel) : Type 0 where
    pub few : (k.threads k.current).preempt_level < 4294967295
    pub calm : (k.threads k.current).yield ≡ false

  -- The mutex is free, and no thread waits for it.
  pub record IsFree (m : Mutex) : Type 0 where
    pub owner : m.owner ≡ none
    pub unlocked : m.locked ≡ false
    pub alone : nodes m.waiters ≡ []

  pub lock_quiet :
      (s : MutexState) (waiter : ℕ)
      → IsCalm s.kernel
      → IsFree s.mutex
      → mutex_lock s waiter ≡ ok (taken s s.kernel.current s.kernel)
  unfolding mutex_lock mutex_take thread_self
  lock_quiet s waiter c f =
      rw
        (
          preempt_disable_lem s.kernel c.few,
          f.unlocked,
          set_owner_lem s.mutex s.kernel.current f.owner f.unlocked,
          masked_quiet s.kernel c.calm,
        )
        refl

  pub unlock_quiet :
      (s : MutexState)
      → IsCalm s.kernel
      → s.mutex.owner ≡ some s.kernel.current
      → s.mutex.locked ≡ true
      → nodes s.mutex.waiters ≡ []
      → mutex_unlock s ≡ ok (record s { mutex = released s })
  unfolding mutex_unlock
  unlock_quiet s c own on alone =
      rw
        (
          preempt_disable_lem s.kernel c.few,
          clear_lem (record s { kernel = masked s.kernel }) own on,
          empty-nodes s.mutex.waiters,
          alone,
          masked_quiet s.kernel c.calm,
        )
        refl

  -- The current thread has the mutex.
  abbrev pub held : Stopwatch → Stopwatch
  held s = record s {
    sync = record s.sync { base = taken s.sync.base s.sync.base.kernel.current s.sync.base.kernel };
  }

  pub sw_lock_lem :
      (s : Stopwatch) (waiter : ℕ)
      → IsCalm s.sync.base.kernel
      → IsFree s.sync.base.mutex
      → sw_lock s waiter ≡ ok (held s)
  unfolding sw_lock
  sw_lock_lem s waiter c f =
      ap
        (λ b.
          if b
          then blocked
          else (mutex_lock s.sync.base waiter >>= λ base.
              ok (record s { sync = record s.sync { base = base } })))
        f.unlocked
      ∙ rw (lock_quiet s.sync.base waiter c f) refl

  freed : (m : Mutex) → IsFree m → (record m { owner = none; locked = false }) ≡ m
  freed m f =
      ap (λ o. record m { owner = o; locked = false }) (sym f.owner)
      ∙ ap (λ l. record m { locked = l }) (sym f.unlocked)

  -- The end of a section that left the mutex and the threads alone.
  pub sw_unlock_lem :
      (s : Stopwatch) (s1 : Stopwatch)
      → IsCalm s.sync.base.kernel
      → IsFree s.sync.base.mutex
      → s1.sync ≡ (held s).sync
      → sw_unlock s1 ≡ ok (record s1 { sync = s.sync })
  unfolding sw_unlock
  sw_unlock_lem s s1 c f same =
      rw (same, unlock_quiet (held s).sync.base c refl refl f.alone, freed s.sync.base.mutex f) refl
