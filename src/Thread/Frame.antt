-- ===== src/Thread/Frame.antt =====
-- What the run queue of src/thread.c does not depend on: the flags of the processor, and all of a thread
-- but its state and its priority.
use x.Base.{ℕ, ◌<◌, ◌≡◌, ◌≢◌, ap, sym, ◌∙◌, subst, arith, count}
use x.LinkedList.{LinkedList}
use x.Thread.State.{Kernel, Thread, running}
use x.Thread.Park.{IsScheduled}

module _ ⦃lib : LinkedList⦄ where
  open lib use {nodes}

  -- Only the current thread may change its state, which no list shows.
  pub frame-IsScheduled :
      (k : Kernel) (threads : ℕ → Thread) (eflags : ℕ)
      → ((t : ℕ) → t ≢ k.current → (threads t).state ≡ (k.threads t).state)
      → ((t : ℕ) → (threads t).priority ≡ (k.threads t).priority)
      → (threads k.idle).state ≡ running
      → IsScheduled k
      → IsScheduled (record k { threads = threads; eflags = eflags })
  frame-IsScheduled k threads eflags states priorities idle v = record {
    queue = record {
      once = v.queue.once;
      member = λ p t lt c.
          let r = v.queue.member p t lt c in
          let other : t ≢ k.current =
            λ e. omega (arith, v.apart p lt, ap (λ t. count t (nodes (k.lists p))) e, c) in
          record {
            runs = states t other ∙ r.runs;
            priority = priorities t ∙ r.priority;
            not_idle = r.not_idle;
          };
    };
    apart = v.apart;
    bounded = λ busy. subst (λ n. n < 20) (sym (priorities k.current)) (v.bounded busy);
    idle_runs = idle;
    counted = v.counted;
  }
