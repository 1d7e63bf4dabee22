-- ===== src/Thread/Created.antt =====
-- `thread_create` of src/thread.c, with the allocator of src/mem.c below it.
use x.Base.{ℕ, ◌<◌, ◌≤◌, ◌≡◌, ◌≢◌, refl, subst, ==_eq, ==_ne, arith, Option, some, none, List, ◌∷◌}
use x.Base.Outcome.{ok}
use x.LinkedList.{LinkedList}
use x.Mem.{Heap, mem_alloc}
use x.Mem.Alloc.{mem_alloc-Allocated}
use x.Mem.Regions.{Region, count_ptr, erase_ptr}
use x.Mem.Live.{blocks_at-le}
use x.Mem.Blocks.{Tiles}
use x.Mem.Account.{Accounts, alloc-Accounts, refuse-Accounts, release_code}
use x.Thread.State.{Kernel, ThreadState, running, sleeping, dead, in_code}
use x.Thread.System.{IsSystem}
use x.Thread.Create.{error_nomem, thread_size, create_with_stack, create_with_thread, thread_create}
use x.Thread.Insert.{Created, no_memory, create_at_lem}

module _ ⦃lib : LinkedList⦄ where
  -- Each thread has a region of the allocator.
  abbrev pub IsAllocated : Kernel → List Region → Type 0
  IsAllocated k live = (t : ℕ) → (k.threads t).state ≢ dead → 0 < count_ptr t live

  -- A fresh region was not held before.
  pub fresh_region :
      {a p n : ℕ} {h : Heap} {live : List Region}
      → Accounts a h ((p, n) ∷ live)
      → 0 < count_ptr p live
      → ⊥
  fresh_region {a} {p} {n} {h} {live} acc before =
      let tiles : Tiles h.word a acc.blocks =
        subst (λ m. Tiles h.word m acc.blocks) acc.place acc.valid.tiled.tiles in
      let once = blocks_at-le h.word p a acc.blocks tiles in
      let twice : 2 ≤ count_ptr p ((p, n) ∷ live) = ground (arith, before) in
      omega (arith, acc.owned p, once, twice)

  -- A fresh region is no thread.
  fresh_lem :
      {a p n : ℕ} {h : Heap} {live : List Region} (k : Kernel)
      → Accounts a h ((p, n) ∷ live)
      → IsAllocated k live
      → (k.threads p).state ≢ dead
      → ⊥
  fresh_lem {a} {p} {n} {h} {live} k acc all alive = fresh_region acc (all p alive)

  pub dead_of : (s : ThreadState) → (s ≢ dead → ⊥) → s ≡ dead
  dead_of running no_other = absurd (no_other (λ e. cc))
  dead_of sleeping no_other = absurd (no_other (λ e. cc))
  dead_of dead no_other = refl

  module _ (thread_start thread_idle : ℕ) (snprintf : ℕ → List ℕ → List ℕ) where
    -- The stack is there, or not.
    with_stack_lem :
        (k : Kernel) (heap : Heap) (a t fn arg : ℕ) (name : List ℕ) (stack_size priority : ℕ)
        (live : List Region)
        → IsSystem k
        → (k.threads k.current).point ≡ in_code
        → (k.threads k.current).preempt_level < 4294967295
        → k.nr_threads < 4294967295
        → (k.threads t).state ≡ dead
        → 32 ≤ stack_size
        → stack_size ≤ 4294967284
        → priority < 20
        → Accounts a heap ((t, thread_size) ∷ live)
        → (r : ℕ × Option ℕ × Kernel × Heap) × (create_with_thread thread_start thread_idle snprintf
              k heap
              (some t)
              fn
              arg
              name
              stack_size
              priority
            ≡ ok r)
          × Created k a live thread_start fn arg stack_size r
    unfolding create_with_thread create_with_stack
    with_stack_lem k heap a t fn arg name stack_size priority live v code lt few gone room small
          bound acc =
        let (stack, g, run, done) =
          mem_alloc-Allocated heap acc.blocks stack_size acc.valid (omega (arith, room)) in
        go stack g run
      where
        go :
            (stack : Option ℕ) (g : Heap)
            → mem_alloc heap stack_size ≡ ok (stack, g)
            → (r : ℕ × Option ℕ × Kernel × Heap) × (create_with_thread thread_start thread_idle
                  snprintf k heap
                  (some t)
                  fn
                  arg
                  name
                  stack_size
                  priority
                ≡ ok r)
              × Created k a live thread_start fn arg stack_size r
        go none g run =
            let acc1 = refuse-Accounts stack_size acc (omega (arith, room)) run in
            let mine : 0 < count_ptr t ((t, thread_size) ∷ live) = ground arith in
            let (g', back, acc2) = release_code t acc1 mine in
            let left : erase_ptr t ((t, thread_size) ∷ live) ≡ live = rw (==_eq t t refl) refl in
            (
              (error_nomem, none, k, g'),
              rw (run, back) refl,
              no_memory (subst (λ live. Accounts a g' live) left acc2),
            )
        go (some s) g run =
            let acc1 = alloc-Accounts stack_size acc (omega (arith, room)) small run in
            let (k', g', made, c) =
              create_at_lem thread_start thread_idle snprintf k g a t s fn arg name stack_size
                priority live v code lt few gone room bound acc1 in
            ((0, some t, k', g'), rw (run, made) refl, c)

    -- In a system in order, with the preemption level and the number of threads below their
    -- limits, and a valid heap whose regions held include all living threads,
    -- `thread_create`, by a thread in its own code, with a function, a stack of at least 32
    -- bytes and at most 2^32 - 12, and a priority of the run queue, fails no assertion. It
    -- returns ERROR_NOMEM with the allocator's regions as they were, or 0: the new thread
    -- was no thread before, is ready, and current or once in the list of its priority, the
    -- others keep their states, and its stack is forged within its region.
    pub create_lem :
        (k : Kernel) (heap : Heap) (a fn arg : ℕ) (name : List ℕ) (stack_size priority : ℕ)
        (live : List Region)
        → IsSystem k
        → (k.threads k.current).point ≡ in_code
        → (k.threads k.current).preempt_level < 4294967295
        → k.nr_threads < 4294967295
        → Accounts a heap live
        → IsAllocated k live
        → fn ≢ 0
        → 32 ≤ stack_size
        → stack_size ≤ 4294967284
        → priority < 20
        → (r : ℕ × Option ℕ × Kernel × Heap) × (thread_create thread_start thread_idle snprintf k
              heap fn arg name stack_size priority
            ≡ ok r)
          × Created k a live thread_start fn arg stack_size r
    unfolding thread_create create_with_thread
    create_lem k heap a fn arg name stack_size priority live v code lt few acc all some_fn room
          small bound =
        let (thread, g, run, done) =
          mem_alloc-Allocated heap acc.blocks thread_size acc.valid (omega arith) in
        go thread g run
      where
        go :
            (thread : Option ℕ) (g : Heap)
            → mem_alloc heap thread_size ≡ ok (thread, g)
            → (r : ℕ × Option ℕ × Kernel × Heap) × (thread_create thread_start thread_idle snprintf
                  k heap fn arg name stack_size priority
                ≡ ok r)
              × Created k a live thread_start fn arg stack_size r
        go none g run = (
          (error_nomem, none, k, g),
          rw (==_ne fn 0 some_fn, run) refl,
          no_memory (refuse-Accounts thread_size acc (omega arith) run),
        )
        go (some t) g run =
            let acc1 = alloc-Accounts thread_size acc (omega arith) (omega arith) run in
            let gone = dead_of (k.threads t).state (fresh_lem k acc1 all) in
            let (r, made, c) =
              with_stack_lem k g a t fn arg name stack_size priority live v code lt few gone room
                small bound acc1 in
            (r, rw (==_ne fn 0 some_fn, run) made, c)
