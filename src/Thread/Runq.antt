-- ===== src/Thread/Runq.antt =====
-- The run queue of src/thread.c: a list of threads for each priority.
use x.Base.{ℕ, zero, suc, ◌-◌, Bool, not, none, some, ltb, ◌==◌, update, if◌then◌else◌}
use x.Base.Word.{add32}
use x.Base.Outcome.{Outcome, ok, undefined, ◌>>=◌, ◌>>◌, assert}
use x.LinkedList.{LinkedList}
use x.Thread.State.{
  Kernel, Point, thread_nr_priorities, thread_is_running, thread_get_priority, thread_set_yield,
  thread_set_point, thread_scheduler_locked,
}

module _ ⦃lib : LinkedList⦄ where
  open lib use {Head, list_init, list_insert_tail, list_remove, list_empty, list_first}

  abbrev pub thread_list_init : Head
  thread_list_init = list_init

  unfoldable pub thread_list_enqueue : Head → ℕ → Head
  thread_list_enqueue list thread = list_insert_tail list thread

  -- The first thread of a list, and the list without it. On an empty list the code would take the head
  -- of the list for a thread.
  unfoldable pub thread_list_dequeue : Head → Outcome (ℕ × Head)
  thread_list_dequeue list = elim (list_first list) [
    | none ↦ undefined
    | some thread ↦ ok (thread, list_remove list thread)
  ]

  unfoldable pub thread_list_empty : Head → Bool
  thread_list_empty list = list_empty list

  unfoldable pub thread_runq_get_list : Kernel → ℕ → Outcome Head
  thread_runq_get_list k priority = do
    assert (ltb priority thread_nr_priorities)
    ok (k.lists priority)

  -- Puts a thread at the end of the list of its priority.
  unfoldable pub enqueue : Kernel → ℕ → Outcome Kernel
  enqueue k thread = do
    let priority = thread_get_priority k thread
    list ← thread_runq_get_list k priority
    ok (record k { lists = update k.lists priority (thread_list_enqueue list thread) })

  unfoldable pub thread_runq_put_prev : Kernel → ℕ → Outcome Kernel
  thread_runq_put_prev k thread = if thread == k.idle then ok k else enqueue k thread

  -- The loop from the highest priority down: the priority at which it stops. A loop that runs to its
  -- end is left with the list of priority 0.
  unfoldable pub search_lists : (ℕ → Head) → ℕ → ℕ
  search_lists lists zero = 0
  search_lists lists (suc i) =
      let rest = search_lists lists i in if thread_list_empty (lists i) then rest else i

  -- The assertion that there is a current thread holds by the type of `current`.
  unfoldable pub thread_runq_get_next : Kernel → Outcome (ℕ × Kernel)
  thread_runq_get_next k =
      if k.nr_threads == 0 then ok (k.idle, record k { current = k.idle }) else do
        let priority = search_lists k.lists thread_nr_priorities
        list ← thread_runq_get_list k priority
        (thread, rest) ← thread_list_dequeue list
        ok (thread, record k { current = thread; lists = update k.lists priority rest })

  unfoldable pub thread_runq_add : Kernel → ℕ → Outcome Kernel
  thread_runq_add k thread = do
    assert (thread_scheduler_locked k)
    assert (thread_is_running k thread)
    k ← enqueue k thread
    let nr = add32 k.nr_threads 1
    assert (not (nr == 0))
    let k' = record k { nr_threads = nr }
    ok (
        if ltb (thread_get_priority k' k'.current) (thread_get_priority k' thread)
        then thread_set_yield k' k'.current
        else k')

  -- `thread_remove_from_list`: a thread of the run queue is in the list of its priority.
  unfoldable pub thread_remove_from_list : Kernel → ℕ → Kernel
  thread_remove_from_list k thread =
      let priority = thread_get_priority k thread in
      record k { lists = update k.lists priority (list_remove (k.lists priority) thread) }

  unfoldable pub thread_runq_remove : Kernel → ℕ → Outcome Kernel
  thread_runq_remove k thread = do
    assert (not (k.nr_threads == 0))
    let k' = record k { nr_threads = k.nr_threads - 1 }
    assert (not (thread_is_running k' thread))
    ok (thread_remove_from_list k' thread)

  -- The context of the previous thread goes on at `point`, that of the next one where it left off;
  -- the next thread may be the previous one.
  unfoldable pub thread_runq_schedule : Kernel → Point → Outcome Kernel
  thread_runq_schedule k point = do
    let prev = k.current
    assert (thread_scheduler_locked k)
    assert ((k.threads prev).preempt_level == 1)
    k ← thread_runq_put_prev k prev
    k ← if thread_is_running k prev then ok k else thread_runq_remove k prev
    (next, k) ← thread_runq_get_next k
    ok (thread_set_point k prev point)
