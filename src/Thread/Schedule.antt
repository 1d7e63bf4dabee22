-- ===== src/Thread/Schedule.antt =====
-- `thread_runq_schedule` of src/thread.c keeps the run queue in order, and runs a ready thread of the
-- highest priority.
use x.Base.{
  ℕ, ◌+◌, ◌≤◌, ◌<◌, ◌≡◌, ◌≢◌, refl, ap, sym, ◌∙◌, subst, true, ◌==◌, ==_ne, ==_eq, ==_iff,
  if◌then◌else◌, arith, count, Bool-cases, inl, inr,
}
use x.Base.Outcome.{Outcome, ok, panic, blocked, undefined, ◌>>=◌}
use x.LinkedList.{LinkedList}
use x.Thread.State.{
  Kernel, Point, running, thread_is_running, thread_set_point, thread_scheduler_locked,
}
use x.Thread.Runq.{thread_runq_get_next, thread_runq_put_prev, thread_runq_schedule}
use x.Thread.Next.{get_next-Chosen}
use x.Thread.Park.{presence, IsScheduled, IsParked, park, park_lem, running_of}
use x.Thread.Pick.{Picked, Chosen-Picked}

module _ ⦃lib : LinkedList⦄ where
  open lib use {Head, nodes}

  -- The state once another thread, or the same one, is current.
  pub record Switched (k : Kernel) (point : Point) (k' : Kernel) : Type 0 where
    pub scheduled : IsScheduled k'
    pub runs : (k'.threads k'.current).state ≡ running
    pub highest :
        (p t : ℕ)
        → p < 20
        → 0 < count t (nodes (k'.lists p))
        → (k'.current ≢ k'.idle) × (p ≤ (k'.threads k'.current).priority)
    pub kept :
        (t : ℕ)
        → t ≢ k.idle
        → (k.threads t).state ≡ running
        → (k.threads t).priority < 20
        → presence k' t ≡ presence k t
    pub others : (t : ℕ) → t ≢ k.current → k'.threads t ≡ k.threads t
    pub self : k'.threads k.current ≡ record (k.threads k.current) { point = point }
    pub flags : k'.eflags ≡ k.eflags
    pub same_idle : k'.idle ≡ k.idle

  -- The point of a thread is no part of what the run queue relies on.
  state-set_point :
      (k : Kernel) (t s : ℕ) (p : Point)
      → ((thread_set_point k t p).threads s).state ≡ (k.threads s).state
  unfolding thread_set_point
  state-set_point k t s p = elim (Bool-cases (t == s)) [
    | inl same ↦ rw same (ap (λ t. (k.threads t).state) ((==_iff t s).0 same))
    | inr other ↦ rw other refl
  ]

  priority-set_point :
      (k : Kernel) (t s : ℕ) (p : Point)
      → ((thread_set_point k t p).threads s).priority ≡ (k.threads s).priority
  unfolding thread_set_point
  priority-set_point k t s p = elim (Bool-cases (t == s)) [
    | inl same ↦ rw same (ap (λ t. (k.threads t).priority) ((==_iff t s).0 same))
    | inr other ↦ rw other refl
  ]

  set_point-IsScheduled :
      (k : Kernel) (t : ℕ) (p : Point) → IsScheduled k → IsScheduled (thread_set_point k t p)
  unfolding thread_set_point
  set_point-IsScheduled k t p v = record {
    queue = record {
      once = v.queue.once;
      member = λ q s lt c.
          let r = v.queue.member q s lt c in
          record {
            runs = state-set_point k t s p ∙ r.runs;
            priority = priority-set_point k t s p ∙ r.priority;
            not_idle = r.not_idle;
          };
    };
    apart = v.apart;
    bounded =
        λ busy. subst (λ n. n < 20) (sym (priority-set_point k t k.current p)) (v.bounded busy);
    idle_runs = state-set_point k t k.idle p ∙ v.idle_runs;
    counted = v.counted;
  }

  pub bind_assoc :
      {A B C : Type 0} (m : Outcome A) (f : A → Outcome B) (g : B → Outcome C)
      → ((m >>= f) >>= g) ≡ (m >>= λ a. f a >>= g)
  bind_assoc (ok a) f g = refl
  bind_assoc panic f g = refl
  bind_assoc blocked f g = refl
  bind_assoc undefined f g = refl

  schedule_code :
      (k : Kernel) (point : Point)
      → thread_scheduler_locked k ≡ true
      → (k.threads k.current).preempt_level ≡ 1
      → thread_runq_schedule k point ≡ (
          park k >>= λ k1.
          thread_runq_get_next k1 >>= λ r. ok (thread_set_point r.1 k.current point))
  unfolding thread_runq_schedule
  schedule_code k point locked level =
      rw (locked, ==_eq (k.threads k.current).preempt_level 1 level)
        (sym (bind_assoc (thread_runq_put_prev k k.current) _ _))

  -- The previous thread is parked, and another one picked.
  switch_lem :
      (k k2 : Kernel) (point : Point)
      → {k1 : Kernel} → (parked : IsParked k k1)
      → Picked (record k { lists = parked.lists; nr_threads = parked.nr }) k2
      → Switched k point (thread_set_point k2 k.current point)
  unfolding thread_set_point
  switch_lem k k2 point parked picked = record {
    scheduled = set_point-IsScheduled k2 k.current point picked.scheduled;
    runs = state-set_point k2 k.current k2.current point ∙ picked.runs;
    highest = λ p t lt c.
        let (busy, above) = picked.highest p t lt c in
        (busy, subst (λ n. p ≤ n) (sym (priority-set_point k2 k.current k2.current point)) above);
    kept = λ t busy runs lt.
        ap (λ q. count t (nodes (k2.lists q)) + (if k2.current == t then 1 else 0))
          (priority-set_point k2 k.current t point)
        ∙ picked.kept t busy lt
        ∙ kept t busy runs lt;
    others =
        λ t other. rw (==_ne k.current t (λ e. other (sym e))) (ap (λ k. k.threads t) picked.same);
    self =
        rw (==_eq k.current k.current refl)
          (ap (λ k2. record (k2.threads k.current) { point = point }) picked.same);
    flags = ap (λ k. k.eflags) picked.same;
    same_idle = ap (λ k. k.idle) picked.same;
  }
    where
      kept :
          (t : ℕ)
          → t ≢ k.idle
          → (k.threads t).state ≡ running
          → (k.threads t).priority < 20
          → count t (nodes (parked.lists (k.threads t).priority)) ≡ presence k t
      kept t busy runs lt = elim (Bool-cases (k.current == t)) [
        | inl here ↦
            let e : k.current ≡ t = (==_iff k.current t).0 here in
            let ready : thread_is_running k k.current ≡ true =
              running_of k k.current (ap (λ t. (k.threads t).state) e ∙ runs) in
            let prio : (k.threads k.current).priority ≡ (k.threads t).priority =
              ap (λ t. (k.threads t).priority) e in
            ground (arith, parked.kept (k.threads t).priority t lt, ready, prio, here, e, busy)
        | inr away ↦ ground (arith, parked.kept (k.threads t).priority t lt, away)
      ]

  -- Called with the scheduler locked in a state whose run queue is in order, `thread_runq_schedule`
  -- fails no assertion and comes to a state in order, in which the current thread is ready, no thread
  -- that waits has a higher priority, and no ready thread was lost or doubled.
  pub schedule-Switched :
      (k : Kernel) (point : Point)
      → IsScheduled k
      → thread_scheduler_locked k ≡ true
      → (k.threads k.current).preempt_level ≡ 1
      → (k' : Kernel) × (thread_runq_schedule k point ≡ ok k') × Switched k point k'
  schedule-Switched k point v locked level =
      let (k1, code1, parked) = park_lem k v in
      let at : Kernel = record k { lists = parked.lists; nr_threads = parked.nr } in
      let code : park k ≡ ok at = code1 ∙ ap ok parked.same in
      let (t, k2, code2, chosen) = get_next-Chosen at parked.queue parked.counted in
      let picked : Picked at k2 = Chosen-Picked parked.queue parked.counted v.idle_runs chosen in
      (
        thread_set_point k2 k.current point,
        rw (schedule_code k point locked level, code, code2) refl,
        switch_lem k k2 point parked picked,
      )
