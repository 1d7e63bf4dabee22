-- ===== src/Boot/Insert.antt =====
-- What `thread_create` does under the lock while the system starts.
use x.Base.{
  ℕ, ◌+◌, ◌-◌, ◌<◌, ◌≡◌, ◌≢◌, refl, ap, sym, ◌∙◌, subst, Bool, true, false, ==_eq, ==_ne, ltb,
  arith, update, update-update,
}
use x.Base.Outcome.{ok, ◌>>=◌}
use x.LinkedList.{LinkedList}
use x.Cpu.Flags.{cpu_intr_disable, enabled-disable}
use x.Thread.State.{Kernel, Thread, running, dead, thread_set_yield, thread_lock_scheduler}
use x.Thread.Runq.{thread_runq_add}
use x.Thread.Sched.{thread_unlock_scheduler}
use x.Thread.System.{running_ne_dead}
use x.Thread.Calls.{lock_lem, locked_lem}
use x.Thread.Wakeup.{flagged, runq_add_code}
use x.Thread.Held.{unlock_held}
use x.Boot.Booting.{IsBooting, with_thread}

module _ ⦃lib : LinkedList⦄ where
  module _ (k : Kernel) (t : ℕ) (th : Thread) (b : IsBooting k) (gone : (k.threads t).state ≡ dead)
      (ready : th.state ≡ running) (bound : th.priority < 20)
      (few : k.nr_threads < 4294967295) where
    -- The new thread is in place, and the scheduler locked.
    abbrev locked_state : Kernel
    locked_state = record k {
      threads =
          update (update k.threads t th) k.current
            (record (k.threads k.current) { preempt_level = 2 });
      eflags = cpu_intr_disable k.eflags;
    }

    abbrev queue_state : Kernel
    queue_state = record locked_state {
      lists = update k.lists th.priority (lib.list_insert_tail (k.lists th.priority) t);
      nr_threads = k.nr_threads + 1;
    }

    other : t ≢ k.current
    other e = running_ne_dead (sym b.runs ∙ ap (λ t. (k.threads t).state) (sym e) ∙ gone)

    lock_code :
        thread_lock_scheduler (record k { threads = update k.threads t th })
        ≡ ok (k.eflags, locked_state)
    lock_code =
        let k0 : Kernel = record k { threads = update k.threads t th } in
        let same : k0.threads k.current ≡ k.threads k.current = rw (==_ne t k.current other) refl in
        let level : (k0.threads k.current).preempt_level ≡ 1 =
          ap (λ d. d.preempt_level) same ∙ b.level in
        lock_lem k0 (omega (arith, level))
        ∙ ap
            (λ (d : Thread). ok (
              k.eflags,
              record k0 {
                threads = update (update k.threads t th) k.current d;
                eflags = cpu_intr_disable k.eflags;
              },
            ))
            (ap (λ (d : Thread). record d { preempt_level = d.preempt_level + 1 }) same
              ∙ ap (λ n. record (k.threads k.current) { preempt_level = n + 1 }) b.level)

    add_code :
        thread_runq_add locked_state t
        ≡ ok (flagged queue_state (ltb (locked_state.threads k.current).priority th.priority))
    add_code =
        let there : locked_state.threads t ≡ th =
          rw (==_ne k.current t (λ e. other (sym e)), ==_eq t t refl) refl in
        let pos : 0 < (locked_state.threads k.current).preempt_level =
          rw (==_eq k.current k.current refl) (omega arith) in
        runq_add_code locked_state t (locked_lem locked_state (enabled-disable k.eflags) pos)
          (ap (λ d. d.state) there ∙ ready) (subst (λ d. d.priority < 20) (sym there) bound) few
        ∙ ap
            (λ p. ok (
              flagged
                (record locked_state {
                  lists = update k.lists p (lib.list_insert_tail (k.lists p) t);
                  nr_threads = k.nr_threads + 1;
                })
                (ltb (locked_state.threads k.current).priority p)))
            (ap (λ d. d.priority) there)

    lowered :
        (ts : ℕ → Thread) (c : ℕ) (d : Thread)
        → update
            (update ts c d)
            c
            (record (update ts c d c) { preempt_level = (update ts c d c).preempt_level - 1 })
          ≡ update ts c (record d { preempt_level = d.preempt_level - 1 })
    lowered ts c d =
        update-update ts c d _
        ∙ ap (λ (e : Thread). update ts c (record e { preempt_level = e.preempt_level - 1 }))
            (rw (==_eq c c refl) refl)

    unlock_code :
        (wanted : Bool)
        → (yield : Bool) × (thread_unlock_scheduler (flagged queue_state wanted) k.eflags true
            ≡ ok (with_thread k t th yield))
    unfolding thread_set_yield
    unlock_code false = (
      (k.threads k.current).yield,
      unlock_held queue_state k.eflags (rw (==_eq k.current k.current refl) (omega arith))
          ∙ ap (λ ts. ok (record queue_state { threads = ts; eflags = k.eflags }))
              (lowered (update k.threads t th) k.current
                (record (k.threads k.current) { preempt_level = 2 })),
    )
    unlock_code true =
        let raised : Thread = record (k.threads k.current) { preempt_level = 2 } in
        let told : Thread = record raised { yield = true } in
        let here : update (update k.threads t th) k.current raised k.current ≡ raised =
          rw (==_eq k.current k.current refl) refl in
        let marked : flagged queue_state true
            ≡ record queue_state { threads = update (update k.threads t th) k.current told } =
          ap (λ ts. record queue_state { threads = ts })
            (update-update (update k.threads t th) k.current raised _
              ∙ ap
                  (λ (e : Thread).
                    update (update k.threads t th) k.current (record e { yield = true }))
                  here) in
        (
          true,
          ap (λ k1. thread_unlock_scheduler k1 k.eflags true) marked
              ∙ unlock_held
                  (record queue_state { threads = update (update k.threads t th) k.current told })
                  k.eflags (rw (==_eq k.current k.current refl) (omega arith))
              ∙ ap (λ ts. ok (record queue_state { threads = ts; eflags = k.eflags }))
                  (lowered (update k.threads t th) k.current told),
        )

    -- What `thread_create` does under the lock: the new thread is in the list of its priority.
    pub boot_insert :
        (yield : Bool) × ((thread_lock_scheduler (record k { threads = update k.threads t th })
            >>= λ r. thread_runq_add r.1 t >>= λ k. thread_unlock_scheduler k r.0 true)
          ≡ ok (with_thread k t th yield))
    boot_insert =
        let (yield, run) =
          unlock_code (ltb (locked_state.threads k.current).priority th.priority) in
        (yield, rw (lock_code, add_code) run)
