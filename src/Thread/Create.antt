-- ===== src/Thread/Create.antt =====
-- The creation and the end of threads in src/thread.c: the stack of a new thread, `thread_create`,
-- `thread_join` and `thread_destroy`, and the idle thread.
use x.Base.{
  ℕ, ◌-◌, true, false, not, leb, Option, none, some, List, [], ◌∷◌, ◌==◌, if◌then◌else◌, update,
}
use x.Base.Word.{add32, sub32}
use x.Base.Outcome.{Outcome, ok, panic, ◌>>=◌, ◌>>◌, assert}
use x.LinkedList.{LinkedList}
use x.Mem.{Heap, mem_alloc, mem_free}
use x.Thread.State.{
  Kernel, Thread, running, at_start, put, thread_idle_priority, thread_is_dead, thread_self,
  thread_lock_scheduler,
}
use x.Thread.Runq.{thread_list_init, thread_runq_add}
use x.Thread.Sched.{thread_sleep, thread_unlock_scheduler}

-- `ERROR_NOMEM` of src/error.h
abbrev pub error_nomem : ℕ
error_nomem = 3

-- The size of `struct thread`, by the rules for the layout of a structure on this processor.
abbrev pub thread_size : ℕ
thread_size = 52

abbrev pub thread_name_max_size : ℕ
thread_name_max_size = 16

abbrev pub thread_stack_min_size : ℕ
thread_stack_min_size = 4096

-- `CPU_EFL_ONE` of src/cpu.h
abbrev pub cpu_efl_one : ℕ
cpu_efl_one = 2

module _ ⦃lib : LinkedList⦄ where
  -- A stack that is filled from its end, as `*stackp` and `*stack_sizep`, in the memory of the heap.
  pub record Stack : Type 0 where
    pub heap : Heap
    pub stack : ℕ
    pub stack_size : ℕ

  unfoldable pub thread_stack_push : Stack → ℕ → Outcome Stack
  thread_stack_push s word = do
    assert (leb 4 s.stack_size)
    let stack = sub32 s.stack 4
    ok (record {
      heap = record s.heap { word = update s.heap.word stack word };
      stack = stack;
      stack_size = s.stack_size - 4;
    })

  -- `snprintf` with the format "%s" is a parameter: what it leaves in a buffer of a size.
  module _ (thread_start thread_idle : ℕ) (snprintf : ℕ → List ℕ → List ℕ) where
    unfoldable pub thread_stack_forge : Heap → ℕ → ℕ → ℕ → ℕ → Outcome (ℕ × Heap)
    thread_stack_forge heap stack_addr stack_size fn arg = do
      let s : Stack = record {
        heap = heap;
        stack = add32 stack_addr stack_size;
        stack_size = stack_size;
      }
      s ← thread_stack_push s arg
      s ← thread_stack_push s fn
      s ← thread_stack_push s thread_start
      s ← thread_stack_push s 0
      s ← thread_stack_push s 0
      s ← thread_stack_push s 0
      s ← thread_stack_push s 0
      s ← thread_stack_push s cpu_efl_one
      ok (s.stack, s.heap)

    unfoldable pub thread_set_name : Thread → List ℕ → Thread
    thread_set_name th name = record th { name = snprintf thread_name_max_size name }

    -- The fields of `thread_init`, with the stack pointer set before.
    unfoldable pub init_fields : Thread → List ℕ → Option ℕ → ℕ → Thread
    init_fields th name stack priority =
        record (thread_set_name
          (record th {
            state = running;
            yield = false;
            preempt_level = 1;
            priority = priority;
            joiner = none;
          })
          name) { stack = stack }

    unfoldable pub thread_init :
        Heap → Thread → ℕ → ℕ → List ℕ → Option ℕ → ℕ → ℕ → Outcome (Thread × Heap)
    thread_init heap th fn arg name none stack_size priority =
        ok (init_fields th name none priority, heap)
    thread_init heap th fn arg name (some stack) stack_size priority = do
      (sp, heap) ← thread_stack_forge heap stack stack_size fn arg
      ok (init_fields (record th { sp = sp; point = at_start }) name (some stack) priority, heap)

    -- What `thread_create` does with the memory it got.
    unfoldable pub thread_create_at :
        Kernel → Heap → ℕ → ℕ → ℕ → ℕ → List ℕ → ℕ → ℕ → Outcome (Kernel × Heap)
    thread_create_at k heap thread stack fn arg name stack_size priority = do
      (th, heap) ← thread_init heap (k.threads thread) fn arg name (some stack) stack_size priority
      (eflags, k) ← thread_lock_scheduler (put k thread th)
      k ← thread_runq_add k thread
      k ← thread_unlock_scheduler k eflags true
      ok (k, heap)

    unfoldable pub create_with_stack :
        Kernel
        → Heap
        → ℕ
        → Option ℕ
        → ℕ
        → ℕ
        → List ℕ
        → ℕ
        → ℕ
        → Outcome (ℕ × Option ℕ × Kernel × Heap)
    create_with_stack k heap thread none fn arg name stack_size priority = do
      heap ← mem_free heap (some thread)
      ok (error_nomem, none, k, heap)
    create_with_stack k heap thread (some stack) fn arg name stack_size priority = do
      (k, heap) ← thread_create_at k heap thread stack fn arg name stack_size priority
      ok (0, some thread, k, heap)

    unfoldable pub create_with_thread :
        Kernel → Heap → Option ℕ → ℕ → ℕ → List ℕ → ℕ → ℕ → Outcome (ℕ × Option ℕ × Kernel × Heap)
    create_with_thread k heap none fn arg name stack_size priority = ok (error_nomem, none, k, heap)
    create_with_thread k heap (some thread) fn arg name stack_size priority = do
      (stack, heap) ← mem_alloc heap stack_size
      create_with_stack k heap thread stack fn arg name stack_size priority

    -- The error code, and the thread where the caller's pointer is set.
    unfoldable pub thread_create :
        Kernel → Heap → ℕ → ℕ → List ℕ → ℕ → ℕ → Outcome (ℕ × Option ℕ × Kernel × Heap)
    thread_create k heap fn arg name stack_size priority = do
      assert (not (fn == 0))
      (thread, heap) ← mem_alloc heap thread_size
      create_with_thread k heap thread fn arg name stack_size priority

    -- The idle thread, once it has its stack.
    unfoldable pub idle_with_stack : Kernel → Heap → ℕ → Option ℕ → Outcome (ℕ × Kernel × Heap)
    idle_with_stack k heap idle none = panic
    idle_with_stack k heap idle (some stack) = do
      (th, heap) ←
          thread_init heap (k.threads idle) thread_idle 0 (105 ∷ 100 ∷ 108 ∷ 101 ∷ []) (some stack)
            thread_stack_min_size thread_idle_priority
      ok (idle, put k idle th, heap)

    unfoldable pub idle_with_thread : Kernel → Heap → Option ℕ → Outcome (ℕ × Kernel × Heap)
    idle_with_thread k heap none = panic
    idle_with_thread k heap (some idle) = do
      (stack, heap) ← mem_alloc heap thread_stack_min_size
      idle_with_stack k heap idle stack

    unfoldable pub thread_create_idle : Kernel → Heap → Outcome (ℕ × Kernel × Heap)
    thread_create_idle k heap = do
      (idle, heap) ← mem_alloc heap thread_size
      idle_with_thread k heap idle

    unfoldable pub thread_runq_init : Kernel → Heap → Outcome (Kernel × Heap)
    thread_runq_init k heap = do
      (idle, k, heap) ←
          thread_create_idle (record k { nr_threads = 0; lists = λ i. thread_list_init }) heap
      ok (record k { idle = idle }, heap)

    -- With the address of `thread_dummy`.
    unfoldable pub thread_runq_preinit : Kernel → Heap → ℕ → Outcome (Kernel × Heap)
    thread_runq_preinit k heap thread_dummy = do
      (th, heap) ←
          thread_init heap (k.threads thread_dummy) 0 0 (100 ∷ 117 ∷ 109 ∷ 109 ∷ 121 ∷ []) none 0 0
      ok (record k { threads = update k.threads thread_dummy th; current = thread_dummy }, heap)

    abbrev pub thread_bootstrap : Kernel → Heap → ℕ → Outcome (Kernel × Heap)
    thread_bootstrap k heap thread_dummy = thread_runq_preinit k heap thread_dummy

    abbrev pub thread_setup : Kernel → Heap → Outcome (Kernel × Heap)
    thread_setup k heap = thread_runq_init k heap

  unfoldable pub thread_destroy : Kernel → Heap → ℕ → Outcome Heap
  thread_destroy k heap thread = do
    assert (thread_is_dead k thread)
    heap ← mem_free heap (k.threads thread).stack
    mem_free heap (some thread)

  -- The loop of `thread_join`: to sleep, up to the switch, or on to the end of the section, which may
  -- switch threads too; `thread_destroy` comes after.
  unfoldable pub thread_join_turn : Kernel → ℕ → ℕ → Outcome Kernel
  thread_join_turn k thread eflags =
      if not (thread_is_dead k thread)
      then thread_sleep k
      else thread_unlock_scheduler k eflags true

  -- `thread_join`, with the flags that its end restores.
  unfoldable pub thread_join : Kernel → ℕ → Outcome (ℕ × Kernel)
  thread_join k thread = do
    (eflags, k) ← thread_lock_scheduler k
    let k1 = put k thread (record (k.threads thread) { joiner = some (thread_self k) })
    k ← thread_join_turn k1 thread eflags
    ok (eflags, k)
