-- ===== src/Sw/Wait.antt =====
-- `sw_shell_wait` of src/sw.c: the shell sleeps until a deadline, and leaves the mutex to others.
use Prim.Native.String.{String}
use x.Base.{
  ℕ, ◌+◌, ◌*◌, ◌%◌, ◌^◌, ◌≤◌, ◌≡◌, ◌≢◌, refl, ap, ◌∙◌, true, false, not, Option, some, List, [],
  ◌∷◌, ◌++◌, count, update, ==_eq, ltb, if◌then◌else◌, arith,
}
use x.Base.Word.{add32}
use x.Base.Outcome.{ok, ◌>>=◌}
use x.LinkedList.{LinkedList}
use x.Thread.State.{Kernel, sleeping, in_code, thread_self}
use x.Thread.System.{IsSystem}
use x.Thread.Enable.{at_level-Continued}
use x.Thread.Leave.{sleep_lem}
use x.Thread.Quiet.{masked, masked_self}
use x.Thread.Trace.{preempt_disable_lem}
use x.Mutex.{MutexState}
use x.Mutex.Unlock.{released}
use x.Condvar.{Condvar, condvar_waiter_init, condvar_sleep, condvar_wait}
use x.Sw.{Stopwatch, disabled, say, sw_unlock, sw_wait, sw_shell_wait}
use x.Sw.Quiet.{IsCalm, IsFree, unlock_quiet, held, sw_lock_lem}

module _ ⦃lib : LinkedList⦄ where
  open lib use {nodes, list_insert_tail, nodes-insert_tail}

  -- The current thread sleeps in the queue of the condition variable, and gave the mutex back.
  pub record Waiting (k : Kernel) (queue : List ℕ) (waiter : ℕ) (c' : Condvar) : Type 0 where
    pub system : IsSystem c'.base.kernel
    pub asleep : (c'.base.kernel.threads k.current).state ≡ sleeping
    pub others : (t : ℕ) → t ≢ k.current → (c'.base.kernel.threads t).state ≡ (k.threads t).state
    pub queued : nodes c'.waiters ≡ queue ++ (waiter ∷ [])
    pub thread : (c'.waiter_at waiter).thread ≡ k.current
    pub unmarked : (c'.waiter_at waiter).awaken ≡ false
    pub free : IsFree c'.base.mutex

  pub wait_quiet :
      (c : Condvar) (waiter : ℕ)
      → IsSystem c.base.kernel
      → (c.base.kernel.threads c.base.kernel.current).point ≡ in_code
      → (c.base.kernel.threads c.base.kernel.current).preempt_level ≡ 0
      → (c.base.kernel.threads c.base.kernel.current).yield ≡ false
      → c.base.kernel.current ≢ c.base.kernel.idle
      → c.base.mutex.owner ≡ some c.base.kernel.current
      → c.base.mutex.locked ≡ true
      → nodes c.base.mutex.waiters ≡ []
      → count waiter (nodes c.waiters) ≡ 0
      → (c' : Condvar) × (condvar_wait c waiter ≡ ok c')
        × Waiting c.base.kernel (nodes c.waiters) waiter c'
  unfolding condvar_wait condvar_waiter_init condvar_sleep thread_self
  wait_quiet c waiter v code level calm busy own on alone fresh =
      let k = c.base.kernel in
      let self = masked_self k in
      let before =
        at_level-Continued k ((k.threads k.current).preempt_level + 1) k.eflags v.orderly v.runs
          code in
      let s1 : MutexState = record c.base { kernel = masked k } in
      let level1 : ((masked k).threads k.current).preempt_level ≡ 1 =
        ap (λ d. d.preempt_level) self ∙ ap (λ n. n + 1) level in
      let calm1 : IsCalm (masked k) = record {
        few = omega (arith, level1);
        calm = ap (λ d. d.yield) self ∙ calm;
      } in
      let (k', run, l) = sleep_lem (masked k) before.system level1 busy in
      (
        record c {
          base = record c.base { kernel = k'; mutex = released s1 };
          waiter_at = update c.waiter_at waiter (record { thread = k.current; awaken = false });
          waiters = list_insert_tail c.waiters waiter;
        },
        rw (preempt_disable_lem k (omega (arith, level)), unlock_quiet s1 calm1 own on alone, run)
            refl,
        record {
          system = l.system;
          asleep = ap (λ d. d.state) l.left;
          others = λ t far. ap (λ d. d.state) (l.others t far) ∙ before.states t;
          queued = nodes-insert_tail c.waiters waiter fresh;
          thread = rw (==_eq waiter waiter refl) refl;
          unmarked = rw (==_eq waiter waiter refl) refl;
          free = record { owner = refl; unlocked = refl; alone = alone };
        },
      )

  -- In a system in order, `sw_shell_wait` for at most 30 seconds while the stopwatch runs, by
  -- a thread in its own code with preemption enabled that is not the idle one, was not told
  -- to yield, and finds the mutex free without waiters, sleeps: its deadline is 100 ticks for
  -- each second ahead, its waiter is the last of the condition variable and not marked, the
  -- mutex is free for others, and the system is in order.
  pub wait_lem :
      (sw_timer : ℕ) (sscanf : String → Option ℕ) (s : Stopwatch) (argv1 : String)
      (seconds waiter cv_waiter : ℕ)
      → sscanf argv1 ≡ some seconds
      → seconds ≤ 30
      → s.sw_timer_scheduled ≡ true
      → IsSystem s.sync.base.kernel
      → (s.sync.base.kernel.threads s.sync.base.kernel.current).point ≡ in_code
      → (s.sync.base.kernel.threads s.sync.base.kernel.current).preempt_level ≡ 0
      → (s.sync.base.kernel.threads s.sync.base.kernel.current).yield ≡ false
      → s.sync.base.kernel.current ≢ s.sync.base.kernel.idle
      → IsFree s.sync.base.mutex
      → count cv_waiter (nodes s.sync.waiters) ≡ 0
      → (s' : Stopwatch) × (sw_shell_wait sw_timer sscanf s 2 argv1 waiter cv_waiter ≡ ok s')
        × Waiting s.sync.base.kernel (nodes s.sync.waiters) cv_waiter s'.sync
        × (s'.sw_shell_waiting ≡ true)
        × (s'.sw_wait_ticks ≡ add32 s.sw_ticks (seconds * 100))
        × (s'.sw_ticks ≡ s.sw_ticks)
        × (s'.timers ≡ s.timers)
  unfolding sw_shell_wait sw_wait
  wait_lem sw_timer sscanf s argv1 seconds waiter cv_waiter read short on v code level calm busy f
        fresh =
      let c : IsCalm s.sync.base.kernel = record { few = omega (arith, level); calm = calm } in
      let (sync, run, w) =
        wait_quiet (held s).sync cv_waiter v code level calm busy refl refl f.alone fresh in
      let word : seconds * 100 % 2 ^ 32 ≡ seconds * 100 = omega (arith, short) in
      let in_time : ltb 30 seconds ≡ false = ground (arith, short) in
      let s' : Stopwatch = record s {
        sync = sync;
        sw_shell_waiting = true;
        sw_wait_ticks = add32 s.sw_ticks (seconds * 100);
      } in
      (
        s',
        rw (read, in_time, sw_lock_lem s waiter c f)
            (ap
                (λ b.
                  if not b
                  then sw_unlock (say (held s) disabled)
                  else (condvar_wait (held s).sync cv_waiter >>= λ sync. ok (record (held s) {
                    sw_shell_waiting = true;
                    sw_wait_ticks = add32 s.sw_ticks (seconds * 100 % 2 ^ 32);
                    sync = sync;
                  })))
                on
              ∙ rw (run, word) refl),
        w,
        refl,
        refl,
        refl,
        refl,
      )
