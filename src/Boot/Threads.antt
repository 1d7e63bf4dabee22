-- ===== src/Boot/Threads.antt =====
-- `thread_create` of src/thread.c while the system starts, with the memory of src/mem.c below it.
use x.Base.{
  ℕ, ◌+◌, ◌-◌, ◌≤◌, ◌<◌, ◌≡◌, ◌≢◌, refl, ap, sym, ◌∙◌, subst, Bool, false, ◌⊎◌, none, some, List,
  ◌∷◌, ==_ne, arith, update,
}
use native.Mathlib.Decide.{ℕ_discrete}
use x.Base.Outcome.{ok}
use x.LinkedList.{LinkedList}
use x.Mem.{Heap, mem_heap_size, mem_alloc}
use x.Mem.Regions.{Region, count_ptr}
use x.Mem.Account.{Accounts, region_bounds}
use x.Mem.Payload.{write-Accounts, write-blocks}
use x.Mem.Room.{largest, room_lem}
use x.Thread.State.{Kernel, Thread, running, dead, at_start, thread_lock_scheduler}
use x.Thread.Create.{
  thread_size, thread_stack_forge, thread_set_name, init_fields, thread_init, thread_create_at,
  create_with_stack, create_with_thread, thread_create,
}
use x.Thread.Forge.{forge_lem}
use x.Thread.Insert.{insert_code}
use x.Thread.Created.{fresh_region, dead_of}
use x.Boot.Booting.{IsBooting, with_thread, with_thread-IsBooting}
use x.Boot.Insert.{boot_insert}

module _ ⦃lib : LinkedList⦄ where
  -- While the system starts: each thread but `thread_dummy`, which is outside of the heap, has a region
  -- of the allocator, and `m` bytes of memory are left in one piece.
  pub record IsStarting (a m : ℕ) (k : Kernel) (heap : Heap) (live : List Region) : Type 0 where
    pub booting : IsBooting k
    pub accounts : Accounts a heap live
    pub outside : (k.current < a) ⊎ (a + mem_heap_size ≤ k.current)
    pub regions : (t : ℕ) → (k.threads t).state ≢ dead → t ≢ k.current → 0 < count_ptr t live
    pub room : m ≤ largest accounts.blocks

  -- One thread more, with its regions.
  pub record Starts (a m : ℕ) (k : Kernel) (live : List Region) (size t : ℕ) (k' : Kernel)
      (g : Heap) : Type 0 where
    pub stack : ℕ
    pub starting : IsStarting a (m - (size + 122)) k' g ((stack, size) ∷ (t, thread_size) ∷ live)
    pub same_current : k'.current ≡ k.current
    pub same_idle : k'.idle ≡ k.idle
    pub flags : k'.eflags ≡ k.eflags
    pub counted : k'.nr_threads ≡ k.nr_threads + 1

  with_thread-regions :
      (k : Kernel) (t s size : ℕ) (th : Thread) (yield : Bool) (live : List Region)
      → ((t : ℕ) → (k.threads t).state ≢ dead → t ≢ k.current → 0 < count_ptr t live)
      → (q : ℕ) → ((with_thread k t th yield).threads q).state ≢ dead
      → q ≢ k.current
      → 0 < count_ptr q ((s, size) ∷ (t, thread_size) ∷ live)
  with_thread-regions k t s size th yield live all q alive far = elim (ℕ_discrete t q) [
    | yes e ↦ ground (arith, e)
    | no other ↦
        let same : (with_thread k t th yield).threads q ≡ k.threads q =
          rw (==_ne k.current q (λ e. far (sym e)), ==_ne t q other) refl in
        let before = all q (λ gone. alive (ap (λ d. d.state) same ∙ gone)) far in
        ground (arith, before)
  ]

  module _ (thread_start thread_idle : ℕ) (snprintf : ℕ → List ℕ → List ℕ) where
    -- The memory of a new thread, with its stack forged.
    pub record Memory (a m : ℕ) (heap : Heap) (live : List Region) (fn arg size : ℕ) : Type 0 where
      pub thread : ℕ
      pub stack : ℕ
      pub heap1 : Heap
      pub heap2 : Heap
      pub word : ℕ → ℕ
      pub thread_code : mem_alloc heap thread_size ≡ ok (some thread, heap1)
      pub stack_code : mem_alloc heap1 size ≡ ok (some stack, heap2)
      pub forged :
          thread_stack_forge thread_start thread_idle snprintf heap2 stack size fn arg
          ≡ ok (stack + size - 32, record heap2 { word = word })
      pub accounts :
          Accounts a (record heap2 { word = word }) ((stack, size) ∷ (thread, thread_size) ∷ live)
      pub room : m - (size + 122) ≤ largest accounts.blocks
      pub low : a ≤ thread
      pub high : thread + thread_size ≤ a + mem_heap_size
      pub fresh : 0 < count_ptr thread live → ⊥

    pub memory_lem :
        (a m : ℕ) (heap : Heap) (live : List Region) (fn arg size : ℕ) (acc : Accounts a heap live)
        → m ≤ largest acc.blocks
        → 32 ≤ size
        → size ≤ 4294967284
        → size + 122 ≤ m
        → Memory a m heap live fn arg size
    memory_lem a m heap live fn arg size acc left room small enough =
        let (t, g1, code1, acc1, room1) =
          room_lem thread_size m acc (omega arith) (omega arith) left (omega (arith, enough)) in
        let mine1 : 0 < count_ptr t ((t, thread_size) ∷ live) = ground arith in
        let (low1, high1, aligned1) = region_bounds t thread_size acc1 mine1 acc1 acc1.held.0 in
        let (s, g2, code2, acc2, room2) =
          room_lem size (m - (thread_size + 35)) acc1 (omega (arith, room)) small room1
            (omega (arith, enough)) in
        let mine2 : 0 < count_ptr s ((s, size) ∷ (t, thread_size) ∷ live) = ground arith in
        let (low2, high2, aligned2) = region_bounds s size acc2 mine2 acc2 acc2.held.0 in
        let (word, forged, words, same) =
          forge_lem thread_start thread_idle snprintf g2 s size fn arg room
            (omega (arith, high2, acc2.valid.tiled.fits, acc2.place)) in
        let outside : (q : ℕ) → (q < s) ⊎ (s + size ≤ q) → word q ≡ g2.word q =
          λ q out. same q (ground (arith, out, room)) in
        record {
          thread = t;
          stack = s;
          heap1 = g1;
          heap2 = g2;
          word = word;
          thread_code = code1;
          stack_code = code2;
          forged = forged;
          accounts = write-Accounts word s size outside acc2;
          room =
              subst (λ bs. m - (size + 122) ≤ largest bs)
                (sym (write-blocks word s size outside acc2)) (omega (arith, room2));
          low = low1;
          high = high1;
          fresh = fresh_region acc1;
        }

    -- While the system starts, with memory left for a stack and 122 bytes more, `thread_create` with a
    -- function and a priority of the run queue succeeds, and the system goes on starting, with that
    -- memory less and one thread more in the run queue.
    pub start_thread_lem :
        (a m : ℕ) (k : Kernel) (heap : Heap) (live : List Region) (fn arg : ℕ) (name : List ℕ)
        (size priority : ℕ)
        → IsStarting a m k heap live
        → k.nr_threads < 4294967295
        → fn ≢ 0
        → 32 ≤ size
        → size ≤ 4294967284
        → priority < 20
        → size + 122 ≤ m
        → (t : ℕ) × (k' : Kernel) × (g : Heap) × (thread_create thread_start thread_idle snprintf k
              heap fn arg name size priority
            ≡ ok (0, some t, k', g))
          × Starts a m k live size t k' g
    unfolding thread_create create_with_thread create_with_stack thread_create_at thread_init
        init_fields thread_set_name
    start_thread_lem a m k heap live fn arg name size priority v few some_fn room small bound
          enough =
        let b = v.booting in
        let y = memory_lem a m heap live fn arg size v.accounts v.room room small enough in
        let t = y.thread in
        let s = y.stack in
        let far : t ≢ k.current = λ e. ground (arith, y.low, y.high, v.outside, e) in
        let gone : (k.threads t).state ≡ dead =
          dead_of (k.threads t).state (λ alive. y.fresh (v.regions t alive far)) in
        let th : Thread = record (k.threads t) {
          sp = s + size - 32;
          point = at_start;
          state = running;
          yield = false;
          preempt_level = 1;
          priority = priority;
          joiner = none;
          name = snprintf 16 name;
          stack = some s;
        } in
        let g : Heap = record y.heap2 { word = y.word } in
        let (yield, run) = boot_insert k t th b gone refl bound few in
        let k' = with_thread k t th yield in
        (
          t,
          k',
          g,
          rw (==_ne fn 0 some_fn, y.thread_code, y.stack_code, y.forged)
              (rw
                (insert_code (thread_lock_scheduler (record k { threads = update k.threads t th }))
                  t g)
                (rw run refl)),
          record {
            stack = s;
            starting = record {
              booting = with_thread-IsBooting k t th yield b gone refl bound refl refl;
              accounts = y.accounts;
              outside = v.outside;
              regions = with_thread-regions k t s size th yield live v.regions;
              room = y.room;
            };
            same_current = refl;
            same_idle = refl;
            flags = refl;
            counted = refl;
          },
        )
