-- ===== src/Thread/Add.antt =====
-- Adding a thread to the run queue of src/thread.c, after a wake-up or when it is created.
use x.Base.{
  ℕ, ◌+◌, ◌<◌, ◌≤◌, ◌≡◌, ◌≢◌, refl, ap, sym, ◌∙◌, subst, ◌==◌, ==_ne, ==_eq, arith, update,
  if◌then◌else◌, count, count-append, length, length-append, ◌++◌, ◌∷◌, [],
}
use native.Mathlib.Decide.{ℕ_discrete}
use x.LinkedList.{LinkedList}
use x.Thread.State.{Kernel, Thread, running}
use x.Thread.Queue.{queued-update}
use x.Thread.Next.{IsReady}
use x.Thread.Park.{presence, IsScheduled}
use x.Thread.System.{Resumable, IsOrderly}

module _ ⦃lib : LinkedList⦄ where
  open lib use {Head, nodes, list_insert_tail, nodes-insert_tail}

  -- A thread, as `th` says, at the end of its list.
  abbrev pub added : Kernel → ℕ → Thread → Kernel
  added k t th = record k {
    threads = update k.threads t th;
    lists = update k.lists th.priority (list_insert_tail (k.lists th.priority) t);
    nr_threads = k.nr_threads + 1;
  }

  -- A thread that is not ready is in no list.
  absent_lem :
      (k : Kernel) (t p : ℕ)
      → IsOrderly k
      → (k.threads t).state ≢ running
      → p < 20
      → count t (nodes (k.lists p)) ≡ 0
  absent_lem k t p v rests lt = elim (ℕ_discrete (count t (nodes (k.lists p))) 0) [
    | yes e ↦ e
    | no there ↦ absurd (rests (v.scheduled.queue.member p t lt (omega (arith, there))).runs)
  ]

  -- A ready thread may be added that was not ready before, and is neither the current nor the idle one.
  pub record MayAdd (k : Kernel) (t : ℕ) (th : Thread) : Type 0 where
    pub rests : (k.threads t).state ≢ running
    pub other : t ≢ k.current
    pub busy : t ≢ k.idle
    pub ready : th.state ≡ running
    pub bound : th.priority < 20
    pub level : th.preempt_level ≡ 1
    pub point : Resumable th.point

  module _ (k : Kernel) (t : ℕ) (th : Thread) (v : IsOrderly k) (m : MayAdd k t th) where
    after :
        nodes (list_insert_tail (k.lists th.priority) t) ≡ nodes (k.lists th.priority) ++ (t ∷ [])
    after = nodes-insert_tail (k.lists th.priority) t (absent_lem k t th.priority v m.rests m.bound)

    there :
        (q s : ℕ)
        → count s (nodes ((added k t th).lists q))
          ≡ count s (nodes (k.lists q))
            + (if th.priority == q then (if t == s then 1 else 0) else 0)
    there q s =
        ground (arith, ap (count s) after, count-append s (nodes (k.lists th.priority)) (t ∷ []))

    others : (s : ℕ) → t ≢ s → (added k t th).threads s ≡ k.threads s
    others s ne = rw (==_ne t s ne) refl

    added-IsReady :
        (q s : ℕ)
        → q < 20
        → 0 < count s (nodes ((added k t th).lists q))
        → IsReady (added k t th) q s
    added-IsReady q s lt c = elim (ℕ_discrete t s) [
      | yes e ↦
          let p : th.priority ≡ q = ground (
            arith,
            there q s,
            c,
            subst (λ s. count s (nodes (k.lists q)) ≡ 0) e (absent_lem k t q v m.rests lt),
          ) in
          record {
            runs = rw (==_eq t s e) m.ready;
            priority = rw (==_eq t s e) p;
            not_idle = λ i. m.busy (e ∙ i);
          }
      | no ne ↦
          let r = v.scheduled.queue.member q s lt (ground (arith, there q s, c, ne)) in
          record {
            runs = rw (==_ne t s ne) r.runs;
            priority = rw (==_ne t s ne) r.priority;
            not_idle = r.not_idle;
          }
    ]

    added_once : (q s : ℕ) → q < 20 → count s (nodes ((added k t th).lists q)) ≤ 1
    added_once q s lt = elim (ℕ_discrete t s) [
      | yes e ↦ ground (
        arith,
        there q s,
        subst (λ s. count s (nodes (k.lists q)) ≡ 0) e (absent_lem k t q v m.rests lt),
      )
      | no ne ↦ ground (arith, there q s, v.scheduled.queue.once q s lt, ne)
    ]

    added-IsScheduled : IsScheduled (added k t th)
    added-IsScheduled = record {
      queue = record { once = added_once; member = added-IsReady };
      apart = λ q lt. ground (arith, v.scheduled.apart q lt, there q k.current, m.other);
      bounded = λ b.
          subst (λ d. d.priority < 20) (sym (others k.current m.other)) (v.scheduled.bounded b);
      idle_runs = ap (λ d. d.state) (others k.idle m.busy) ∙ v.scheduled.idle_runs;
      counted = ground (
        arith,
        v.scheduled.counted,
        queued-update 20 th.priority k.lists (list_insert_tail (k.lists th.priority) t) m.bound,
        length-append (nodes (k.lists th.priority)) (t ∷ []),
        ap length after,
      );
    }

    pub added-IsOrderly : IsOrderly (added k t th)
    added-IsOrderly = record {
      scheduled = added-IsScheduled;
      bounded = λ s alive busy. elim (ℕ_discrete t s) [
        | yes e ↦ rw (==_eq t s e) m.bound
        | no ne ↦ rw (==_ne t s ne) (v.bounded s (rw (==_ne t s ne) at alive) busy)
      ];
      present = λ s runs busy. elim (ℕ_discrete t s) [
        | yes e ↦ added_present s e
        | no ne ↦ still_present s ne (rw (==_ne t s ne) at runs) busy
      ];
      waits = λ s away alive. elim (ℕ_discrete t s) [
        | yes e ↦ rw (==_eq t s e) (m.level, m.point)
        | no ne ↦ rw (==_ne t s ne) (v.waits s away (rw (==_ne t s ne) at alive))
      ];
    }
      where
        added_present : (s : ℕ) → t ≡ s → presence (added k t th) s ≡ 1
        added_present s e =
            let none_there : count s (nodes (k.lists th.priority)) ≡ 0 =
              subst (λ s. count s (nodes (k.lists th.priority)) ≡ 0) e
                (absent_lem k t th.priority v m.rests m.bound) in
            rw (==_eq t s e) (ground (arith, there th.priority s, none_there, e, m.other))

        still_present :
            (s : ℕ)
            → t ≢ s
            → (k.threads s).state ≡ running
            → s ≢ k.idle
            → presence (added k t th) s ≡ 1
        still_present s ne runs busy =
            rw (==_ne t s ne)
              (ground (arith, there (k.threads s).priority s, v.present s runs busy, ne))

    pub presence-added : presence (added k t th) t ≡ 1
    presence-added = added-IsOrderly.present t (rw (==_eq t t refl) m.ready) m.busy
