-- ===== src/Thread/Insert.antt =====
-- The end of `thread_create` of src/thread.c: the stack of the new thread, and its place in the run
-- queue.
use x.Base.{
  ℕ, ◌+◌, ◌-◌, ◌<◌, ◌≤◌, ◌≡◌, ◌≢◌, refl, ap, sym, ◌∙◌, subst, true, false, ==_eq, ==_ne, arith,
  update, Option, some, none, List, [], ◌∷◌, update-swap,
}
use x.Base.Outcome.{Outcome, ok, panic, blocked, undefined, ◌>>=◌}
use x.LinkedList.{LinkedList}
use x.Cpu.Flags.{cpu_intr_disable, enabled-disable}
use x.Mem.{Heap}
use x.Mem.Regions.{Region, count_ptr}
use x.Mem.Account.{Accounts, region_bounds}
use x.Mem.Payload.{write-Accounts}
use x.Thread.Schedule.{bind_assoc}
use x.Thread.State.{Kernel, Thread, running, dead, in_code, at_start, thread_lock_scheduler}
use x.Thread.Runq.{thread_runq_add}
use x.Thread.Sched.{thread_unlock_scheduler}
use x.Thread.System.{Resumable, IsSystem, running_ne_dead}
use x.Thread.Calls.{at_level, lock_lem}
use x.Thread.Enable.{at_level-Continued}
use x.Thread.Wakeup.{Woken, add_lem}
use x.Thread.Create.{
  error_nomem, thread_size, thread_set_name, init_fields, thread_init, thread_create_at,
}
use x.Thread.Forge.{WordsAt, forge_lem}

module _ ⦃lib : LinkedList⦄ where
  swap_lem :
      (k : Kernel) (t : ℕ) (th : Thread)
      → t ≢ k.current
      → at_level
          (record k { threads = update k.threads t th })
          ((k.threads k.current).preempt_level + 1)
          (cpu_intr_disable k.eflags)
        ≡ (let k1 : Kernel =
              at_level k ((k.threads k.current).preempt_level + 1) (cpu_intr_disable k.eflags) in
            record k1 { threads = update k1.threads t th })
  swap_lem k t th other =
      let level = (k.threads k.current).preempt_level + 1 in
      let off = cpu_intr_disable k.eflags in
      let same : update k.threads t th k.current ≡ k.threads k.current =
        rw (==_ne t k.current other) refl in
      let raised : Thread = record (k.threads k.current) { preempt_level = level } in
      ap
        (λ (c : Thread). record k {
          threads = update (update k.threads t th) k.current (record c { preempt_level = level });
          eflags = off;
        })
        same
      ∙ ap (λ threads. record k { threads = threads; eflags = off })
          (update-swap k.threads t k.current th raised other)

  -- A new thread is put into the run queue: with another address than the current one.
  insert_lem :
      (k : Kernel) (t : ℕ) (th : Thread)
      → IsSystem k
      → (k.threads k.current).point ≡ in_code
      → (k.threads k.current).preempt_level < 4294967295
      → k.nr_threads < 4294967295
      → (k.threads t).state ≡ dead
      → th.state ≡ running
      → th.priority < 20
      → th.preempt_level ≡ 1
      → th.point ≡ at_start
      → (k' : Kernel) × ((thread_lock_scheduler (record k { threads = update k.threads t th })
            >>= λ r. thread_runq_add r.1 t >>= λ k. thread_unlock_scheduler k r.0 true)
          ≡ ok k')
        × Woken k t k'
  insert_lem k t th v code lt few gone ready bound level point =
      let k0 : Kernel = record k { threads = update k.threads t th } in
      let up = (k.threads k.current).preempt_level + 1 in
      let k1 = at_level k up (cpu_intr_disable k.eflags) in
      let other : t ≢ k.current =
        λ e. running_ne_dead (sym v.runs ∙ ap (λ t. (k.threads t).state) (sym e) ∙ gone) in
      let busy : t ≢ k.idle = λ e.
        running_ne_dead
          (sym v.orderly.scheduled.idle_runs ∙ ap (λ t. (k.threads t).state) (sym e) ∙ gone) in
      let same : k0.threads k.current ≡ k.threads k.current = rw (==_ne t k.current other) refl in
      let self : k1.threads k.current ≡ record (k.threads k.current) { preempt_level = up } =
        rw (==_eq k.current k.current refl) refl in
      let there : k1.threads t ≡ k.threads t = rw (==_ne k.current t (λ e. other (sym e))) refl in
      let lock : thread_lock_scheduler k0
          ≡ ok (k.eflags, record k1 { threads = update k1.threads t th }) =
        lock_lem k0 (subst (λ d. d.preempt_level < 4294967295) (sym same) lt)
        ∙ ap
            (λ (d : Thread).
              ok (k.eflags, at_level k0 (d.preempt_level + 1) (cpu_intr_disable k.eflags)))
            same
        ∙ ap (λ k. ok (k0.eflags, k)) (swap_lem k t th other) in
      let c = at_level-Continued k up (cpu_intr_disable k.eflags) v.orderly v.runs code in
      let (k', run, w) =
        add_lem k1 t th k.eflags c.system.orderly c.system.runs (ap (λ d. d.point) self ∙ code)
          (subst (λ d. 0 < d.preempt_level) (sym self) (omega arith)) (enabled-disable k.eflags) few
          (record {
            rests = λ e. running_ne_dead (sym e ∙ ap (λ d. d.state) there ∙ gone);
            other = other;
            busy = busy;
            ready = ready;
            bound = bound;
            level = level;
            point = subst Resumable (sym point) tt;
          }) in
      (
        k',
        ap (λ m. m >>= λ r. thread_runq_add r.1 t >>= λ k. thread_unlock_scheduler k r.0 true) lock
            ∙ run,
        record {
          system = w.system;
          runs = w.runs;
          ready = w.ready;
          same_idle = w.same_idle;
          states = λ s ne. w.states s ne ∙ c.states s;
        },
      )

  abbrev pub with_heap : Heap → Kernel → Outcome (Kernel × Heap)
  with_heap heap k = ok (k, heap)

  -- The end of `thread_create_at`, in one call.
  pub insert_code :
      (m : Outcome (ℕ × Kernel)) (t : ℕ) (heap : Heap)
      → (m >>= λ r. thread_runq_add r.1 t >>= λ k.
          thread_unlock_scheduler k r.0 true >>= λ k. with_heap heap k)
        ≡ ((m >>= λ r. thread_runq_add r.1 t >>= λ k. thread_unlock_scheduler k r.0 true)
            >>= with_heap heap)
  insert_code (ok r) t heap = sym (
      bind_assoc (thread_runq_add r.1 t) (λ k. thread_unlock_scheduler k r.0 true) (with_heap heap))
  insert_code panic t heap = refl
  insert_code blocked t heap = refl
  insert_code undefined t heap = refl

  -- What `thread_create` comes to: no memory, and nothing changed; or a thread that is ready, with its
  -- two regions of memory, and its stack forged.
  pub data Created (k : Kernel) (a : ℕ) (live : List Region) (start fn arg stack_size : ℕ)
      : ℕ × Option ℕ × Kernel × Heap → Type 0 where
    no_memory :
        {g : Heap}
        → Accounts a g live
        → Created k a live start fn arg stack_size (error_nomem, none, k, g)
    created :
        {t s : ℕ} {k' : Kernel} {g : Heap}
        → (k.threads t).state ≡ dead
        → Woken k t k'
        → Accounts a g ((s, stack_size) ∷ (t, thread_size) ∷ live)
        → WordsAt g.word (s + stack_size - 32) (2 ∷ 0 ∷ 0 ∷ 0 ∷ 0 ∷ start ∷ fn ∷ arg ∷ [])
        → Created k a live start fn arg stack_size (0, some t, k', g)

  module _ (thread_start thread_idle : ℕ) (snprintf : ℕ → List ℕ → List ℕ) where
    -- Both regions are there.
    pub create_at_lem :
        (k : Kernel) (heap : Heap) (a t s fn arg : ℕ) (name : List ℕ) (stack_size priority : ℕ)
        (live : List Region)
        → IsSystem k
        → (k.threads k.current).point ≡ in_code
        → (k.threads k.current).preempt_level < 4294967295
        → k.nr_threads < 4294967295
        → (k.threads t).state ≡ dead
        → 32 ≤ stack_size
        → priority < 20
        → Accounts a heap ((s, stack_size) ∷ (t, thread_size) ∷ live)
        → (k' : Kernel) × (g : Heap) × (thread_create_at thread_start thread_idle snprintf k heap t
              s fn arg name stack_size priority
            ≡ ok (k', g))
          × Created k a live thread_start fn arg stack_size (0, some t, k', g)
    unfolding thread_create_at thread_init init_fields thread_set_name
    create_at_lem k heap a t s fn arg name stack_size priority live v code lt few gone room bound
          acc =
        let mine : 0 < count_ptr s ((s, stack_size) ∷ (t, thread_size) ∷ live) = ground arith in
        let (low, high, aligned) = region_bounds s stack_size acc mine acc acc.held.0 in
        let fits : s + stack_size < 4294967296 =
          omega (arith, high, acc.valid.tiled.fits, acc.place) in
        let (word, forged, words, same) =
          forge_lem thread_start thread_idle snprintf heap s stack_size fn arg room fits in
        let th : Thread = record (k.threads t) {
          sp = s + stack_size - 32;
          point = at_start;
          state = running;
          yield = false;
          preempt_level = 1;
          priority = priority;
          joiner = none;
          name = snprintf 16 name;
          stack = some s;
        } in
        let g : Heap = record heap { word = word } in
        let (k', run, w) = insert_lem k t th v code lt few gone refl bound refl refl in
        let acc' =
          write-Accounts word s stack_size (λ q out. same q (ground (arith, out, room))) acc in
        (
          k',
          g,
          rw forged (
              insert_code (thread_lock_scheduler (record k { threads = update k.threads t th })) t g
              ∙ ap (λ m. m >>= with_heap g) run),
          created gone w acc' words,
        )
