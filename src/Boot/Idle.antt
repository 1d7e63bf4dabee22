-- ===== src/Boot/Idle.antt =====
-- `thread_setup` of src/thread.c: the run queue is empty, and the idle thread is there.
use x.Base.{
  ℕ, zero, suc, ◌+◌, ◌-◌, ◌≤◌, ◌<◌, ◌≡◌, ◌≢◌, refl, ap, sym, ◌∙◌, false, ◌⊎◌, none, some, List, [],
  ◌∷◌, ==_eq, ==_ne, arith, update, count, length,
}
use native.Mathlib.Decide.{ℕ_discrete}
use x.Base.Outcome.{ok}
use x.LinkedList.{LinkedList}
use x.Mem.{Heap, mem_heap_size}
use x.Mem.Regions.{count_ptr}
use x.Mem.Account.{Accounts}
use x.Mem.Room.{largest}
use x.Thread.State.{Kernel, Thread, running, dead, at_start}
use x.Thread.Queue.{queued}
use x.Thread.Create.{
  thread_size, thread_set_name, init_fields, thread_init, idle_with_stack, idle_with_thread,
  thread_create_idle, thread_runq_init,
}
use x.Thread.System.{running_ne_dead}
use x.Boot.Booting.{no_thread, IsBooting}
use x.Boot.Threads.{IsStarting, memory_lem}

module _ ⦃lib : LinkedList⦄ where
  open lib use {nodes, list_init, nodes-init}

  -- `thread_dummy` is the only thread.
  pub record IsAlone (k : Kernel) : Type 0 where
    pub runs : (k.threads k.current).state ≡ running
    pub level : (k.threads k.current).preempt_level ≡ 1
    pub others : (t : ℕ) → t ≢ k.current → (k.threads t).state ≡ dead

  empty_queued : (n : ℕ) → queued n (λ p. list_init) ≡ 0
  empty_queued zero = refl
  empty_queued (suc n) = omega (arith, ap length nodes-init, empty_queued n)

  -- The state with the idle thread.
  abbrev pub with_idle : Kernel → ℕ → Thread → Kernel
  with_idle k i th = record k {
    nr_threads = 0;
    lists = λ p. list_init;
    threads = update k.threads i th;
    idle = i;
  }

  with_idle-IsBooting :
      (k : Kernel) (i : ℕ) (th : Thread)
      → IsAlone k
      → i ≢ k.current
      → th.state ≡ running
      → th.preempt_level ≡ 1
      → th.point ≡ at_start
      → IsBooting (with_idle k i th)
  with_idle-IsBooting k i th v far ready level point = record {
    orderly = record {
      scheduled = record {
        queue = record {
          once = λ p t lt. omega (arith, absent t);
          member = λ p t lt c. absurd (omega (arith, absent t, c));
        };
        apart = λ p lt. absent k.current;
        bounded = λ busy. absurd (busy refl);
        idle_runs = ap (λ d. d.state) same ∙ v.runs;
        counted = ground (arith, empty_queued 20);
      };
      bounded = λ t alive busy. absurd (alive (gone t busy));
      present = λ t runs busy. absurd (running_ne_dead (sym runs ∙ gone t busy));
      waits = λ t away alive. absurd (alive (gone t away));
    };
    apart = far;
    level = ap (λ d. d.preempt_level) self ∙ v.level;
    runs = ap (λ d. d.state) self ∙ v.runs;
    idle_runs = ap (λ d. d.state) idle ∙ ready;
    idle_level = ap (λ d. d.preempt_level) idle ∙ level;
    idle_point = ap (λ d. d.point) idle ∙ point;
  }
    where
      absent : (t : ℕ) → count t (nodes list_init) ≡ 0
      absent t = ap (count t) nodes-init

      self : update k.threads i th k.current ≡ k.threads k.current
      self = rw (==_ne i k.current far) refl

      idle : update k.threads i th i ≡ th
      idle = rw (==_eq i i refl) refl

      same : update (update k.threads i th) i no_thread k.current ≡ k.threads k.current
      same = rw (==_ne i k.current far) refl

      gone : (t : ℕ) → t ≢ k.current → (update (update k.threads i th) i no_thread t).state ≡ dead
      gone t away = elim (ℕ_discrete i t) [
        | yes e ↦ rw (==_eq i t e) refl
        | no other ↦ rw (==_ne i t other) (v.others t away)
      ]

  with_idle-regions :
      (k : Kernel) (i s size : ℕ) (th : Thread)
      → IsAlone k
      → (q : ℕ) → ((with_idle k i th).threads q).state ≢ dead
      → q ≢ k.current
      → 0 < count_ptr q ((s, size) ∷ (i, thread_size) ∷ [])
  with_idle-regions k i s size th v q alive far = elim (ℕ_discrete i q) [
    | yes e ↦ ground (arith, e)
    | no other ↦
        let same : (with_idle k i th).threads q ≡ k.threads q = rw (==_ne i q other) refl in
        absurd (alive (ap (λ d. d.state) same ∙ v.others q far))
  ]

  module _ (thread_start thread_idle : ℕ) (snprintf : ℕ → List ℕ → List ℕ) where
    pub idle_lem :
        (a m : ℕ) (k : Kernel) (heap : Heap) (acc : Accounts a heap [])
        → IsAlone k
        → ((k.current < a) ⊎ (a + mem_heap_size ≤ k.current))
        → m ≤ largest acc.blocks
        → 4218 ≤ m
        → (i : ℕ) × (th : Thread) × (s : ℕ) × (g : Heap) × (thread_runq_init thread_start
              thread_idle snprintf k heap
            ≡ ok (with_idle k i th, g))
          × IsStarting a (m - 4218) (with_idle k i th) g ((s, 4096) ∷ (i, thread_size) ∷ [])
    unfolding thread_runq_init thread_create_idle idle_with_thread idle_with_stack thread_init
        init_fields thread_set_name
    idle_lem a m k heap acc v outside left enough =
        let y =
          memory_lem thread_start thread_idle snprintf a m heap [] thread_idle 0 4096 acc left
            (omega arith) (omega arith) (omega (arith, enough)) in
        let i = y.thread in
        let far : i ≢ k.current = λ e. ground (arith, y.low, y.high, outside, e) in
        let th : Thread = record (k.threads i) {
          sp = y.stack + 4096 - 32;
          point = at_start;
          state = running;
          yield = false;
          preempt_level = 1;
          priority = 0;
          joiner = none;
          name = snprintf 16 (105 ∷ 100 ∷ 108 ∷ 101 ∷ []);
          stack = some y.stack;
        } in
        (
          i,
          th,
          y.stack,
          record y.heap2 { word = y.word },
          rw (y.thread_code, y.stack_code, y.forged) refl,
          record {
            booting = with_idle-IsBooting k i th v far refl refl refl;
            accounts = y.accounts;
            outside = outside;
            regions = with_idle-regions k i y.stack 4096 th v;
            room = y.room;
          },
        )
