-- ===== src/Thread/Park.antt =====
-- The first half of `thread_runq_schedule` of src/thread.c: the previous thread goes back to its list
-- if it is ready, and the lists are left as they were if it is not.
use x.Base.{
  ℕ, ◌+◌, ◌-◌, ◌<◌, ◌≡◌, ◌≢◌, refl, ap, ◌∙◌, subst, true, false, not, ◌&&◌, [], ◌∷◌, ◌++◌, ◌==◌,
  ==_ne, ==_eq, update, if◌then◌else◌, arith, count, length, erase, length-append, count-append,
  erase-snoc, update-update, Bool-cases, inl, inr,
}
use native.Mathlib.Decide.{ℕ_discrete}
use x.Base.Outcome.{Outcome, ok, ◌>>=◌}
use x.LinkedList.{LinkedList}
use x.Thread.State.{Kernel, running, thread_get_priority, thread_is_running}
use x.Thread.Runq.{
  thread_list_enqueue, enqueue, thread_runq_put_prev, thread_runq_remove, thread_remove_from_list,
}
use x.Thread.Queue.{queued, queued-update}
use x.Thread.Next.{IsReady, IsQueue, get_list_lem}

module _ ⦃lib : LinkedList⦄ where
  open lib use {
    Head, nodes, list_first, list_insert_tail, list_remove, nodes-insert_tail, nodes-remove,
  }

  -- Whether a thread is ready, counted: it stands in the list of its priority, or it is the current one.
  abbrev pub presence : Kernel → ℕ → ℕ
  presence k t =
      count t (nodes (k.lists (k.threads t).priority)) + (if k.current == t then 1 else 0)

  -- Between the calls of the scheduler: the lists hold the ready threads, the current one apart.
  pub record IsScheduled (k : Kernel) : Type 0 where
    pub queue : IsQueue k
    pub apart : (p : ℕ) → p < 20 → count k.current (nodes (k.lists p)) ≡ 0
    pub bounded : k.current ≢ k.idle → (k.threads k.current).priority < 20
    pub idle_runs : (k.threads k.idle).state ≡ running
    pub counted : k.nr_threads ≡ queued 20 k.lists + (if k.current == k.idle then 0 else 1)

  -- The lists once the previous thread has been put back, with nobody running.
  pub record IsParked (k k' : Kernel) : Type 0 where
    pub lists : ℕ → Head
    pub nr : ℕ
    pub same : k' ≡ record k { lists = lists; nr_threads = nr }
    pub queue : IsQueue (record k { lists = lists; nr_threads = nr })
    pub counted : nr ≡ queued 20 lists
    pub kept :
        (p t : ℕ)
        → p < 20
        → count t (nodes (lists p))
          ≡ count t (nodes (k.lists p))
            + (if (k.current == t)
                  && ((k.threads k.current).priority == p)
                  && thread_is_running k k.current
                  && not (k.current == k.idle)
                then 1
                else 0)

  -- What `thread_runq_schedule` does before it chooses the next thread.
  abbrev pub park : Kernel → Outcome Kernel
  park k = do
    k1 ← thread_runq_put_prev k k.current
    if thread_is_running k1 k.current then ok k1 else thread_runq_remove k1 k.current

  pub running_lem :
      (k : Kernel) (t : ℕ) → thread_is_running k t ≡ true → (k.threads t).state ≡ running
  unfolding thread_is_running
  running_lem k t e = ground arith

  -- The previous thread is not the idle one, and is ready: it goes to the end of its list.
  park_ready :
      (k : Kernel)
      → IsScheduled k
      → k.current ≢ k.idle
      → thread_is_running k k.current ≡ true
      → (k' : Kernel) × (thread_runq_put_prev k k.current ≡ ok k') × IsParked k k'
  unfolding thread_runq_put_prev enqueue thread_get_priority thread_list_enqueue
  park_ready k v busy ready = (
    record k { lists = lists },
    rw (==_ne k.current k.idle busy, get_list_lem k p lt),
    record {
      lists = lists;
      nr = k.nr_threads;
      same = refl;
      queue = record {
        once = λ q t lt. ground (arith, v.queue.once q t, v.apart q, there q t);
        member = λ q t lt c. back q t lt (omega (arith, there q t, c));
      };
      counted = ground (
        arith,
        v.counted,
        queued-update 20 p k.lists l,
        length-append (nodes (k.lists p)) (k.current ∷ []),
        ap length after,
      );
      kept = λ q t lt. ground (arith, there q t);
    },
  )
    where
      p : ℕ
      p = (k.threads k.current).priority

      lt : p < 20
      lt = v.bounded busy

      l : Head
      l = list_insert_tail (k.lists p) k.current

      lists : ℕ → Head
      lists = update k.lists p l

      after : nodes l ≡ nodes (k.lists p) ++ (k.current ∷ [])
      after = nodes-insert_tail (k.lists p) k.current (v.apart p lt)

      there :
          (q t : ℕ)
          → count t (nodes (lists q))
            ≡ count t (nodes (k.lists q))
              + (if p == q then (if k.current == t then 1 else 0) else 0)
      there q t =
          ground (arith, ap (count t) after, count-append t (nodes (k.lists p)) (k.current ∷ []))

      -- A thread of the new lists was there, or is the previous one.
      back :
          (q t : ℕ)
          → q < 20
          → 0
            < count t (nodes (k.lists q))
              + (if p == q then (if k.current == t then 1 else 0) else 0)
          → IsReady (record k { lists = lists }) q t
      back q t lt c = elim (Bool-cases ((p == q) && (k.current == t))) [
        | inl here ↦
            let e : k.current ≡ t = ground arith in
            record {
              runs = subst (λ t. (k.threads t).state ≡ running) e (running_lem k k.current ready);
              priority = subst (λ t. (k.threads t).priority ≡ q) e (ground arith);
              not_idle = ground arith;
            }
        | inr other ↦
            let r = v.queue.member q t lt (ground arith) in
            record { runs = r.runs; priority = r.priority; not_idle = r.not_idle }
      ]

  -- The idle thread is in no list, and is not put back.
  park_idle :
      (k : Kernel)
      → IsScheduled k
      → k.current ≡ k.idle
      → (thread_runq_put_prev k k.current ≡ ok k) × IsParked k k
  unfolding thread_runq_put_prev
  park_idle k v idle = (
    rw (==_eq k.current k.idle idle),
    record {
      lists = k.lists;
      nr = k.nr_threads;
      same = refl;
      queue = record {
        once = v.queue.once;
        member = λ q t lt c.
            let r = v.queue.member q t lt c in
            record { runs = r.runs; priority = r.priority; not_idle = r.not_idle };
      };
      counted = ground (arith, v.counted);
      kept = λ q t lt. ground arith;
    },
  )

  -- A thread that is not ready any more is put back and removed, and leaves the lists as they were.
  park_gone :
      (k : Kernel)
      → IsScheduled k
      → k.current ≢ k.idle
      → thread_is_running k k.current ≡ false
      → (k' : Kernel) × (park k ≡ ok k') × IsParked k k'
  unfolding thread_runq_put_prev enqueue thread_get_priority thread_list_enqueue thread_runq_remove
      thread_remove_from_list thread_is_running
  park_gone k v busy gone = (
    record k { lists = lists; nr_threads = k.nr_threads - 1 },
    rw (==_ne k.current k.idle busy, get_list_lem k p lt, gone_first, some_thread, twice),
    record {
      lists = lists;
      nr = k.nr_threads - 1;
      same = refl;
      queue = record {
        once = λ q t lt. ground (arith, v.queue.once q t, there q t);
        member = λ q t lt c.
            let r = v.queue.member q t lt (omega (arith, there q t, c)) in
            record { runs = r.runs; priority = r.priority; not_idle = r.not_idle };
      };
      counted = ground (arith, v.counted, queued-update 20 p k.lists l', ap length left);
      kept = λ q t lt. ground (arith, there q t);
    },
  )
    where
      p : ℕ
      p = (k.threads k.current).priority

      lt : p < 20
      lt = v.bounded busy

      l : Head
      l = list_insert_tail (k.lists p) k.current

      l' : Head
      l' = list_remove l k.current

      lists : ℕ → Head
      lists = update k.lists p l'

      after : nodes l ≡ nodes (k.lists p) ++ (k.current ∷ [])
      after = nodes-insert_tail (k.lists p) k.current (v.apart p lt)

      alone : count k.current (nodes l) ≡ 1
      alone = ground (
        arith,
        ap (count k.current) after,
        count-append k.current (nodes (k.lists p)) (k.current ∷ []),
        v.apart p lt,
      )

      left : nodes l' ≡ nodes (k.lists p)
      left =
          nodes-remove l k.current alone
          ∙ ap (erase k.current) after
          ∙ erase-snoc k.current (nodes (k.lists p)) (v.apart p lt)

      there : (q t : ℕ) → count t (nodes (lists q)) ≡ count t (nodes (k.lists q))
      there q t = ground (arith, ap (count t) left)

      some_thread : (k.nr_threads == 0) ≡ false
      some_thread = ground (arith, v.counted)

      gone_first : thread_is_running (record k { lists = update k.lists p l }) k.current ≡ false
      gone_first = gone

      twice : update (update k.lists p l) p (list_remove (update k.lists p l p) k.current) ≡ lists
      twice = rw (==_eq p p refl) (update-update k.lists p l l')

  pub running_of :
      (k : Kernel) (t : ℕ) → (k.threads t).state ≡ running → thread_is_running k t ≡ true
  unfolding thread_is_running
  running_of k t e = ground arith

  running-parked :
      {k k' : Kernel} (t : ℕ) → IsParked k k' → thread_is_running k' t ≡ thread_is_running k t
  unfolding thread_is_running
  running-parked t parked = rw parked.same

  -- With the run queue in order, the first half of `thread_runq_schedule` fails no assertion: a ready
  -- thread that is not the idle one is put back once, any other leaves the lists as they were.
  pub park_lem : (k : Kernel) → IsScheduled k → (k' : Kernel) × (park k ≡ ok k') × IsParked k k'
  park_lem k v = elim (ℕ_discrete k.current k.idle) [
    | yes idle ↦
        let (code, parked) = park_idle k v idle in
        let runs : thread_is_running k k.current ≡ true =
          running_of k k.current (ground (arith, v.idle_runs)) in
        (k, rw (code, runs), parked)
    | no busy ↦ elim (Bool-cases (thread_is_running k k.current)) [
      | inl ready ↦
          let (k', code, parked) = park_ready k v busy ready in
          (k', rw (code, running-parked k.current parked, ready), parked)
      | inr gone ↦ park_gone k v busy gone
    ]
  ]
