-- ===== src/Thread/Next.antt =====
-- `thread_runq_get_next` of src/thread.c, and the queueing operations around it.
use x.Base.{
  ℕ, ◌≤◌, ◌<◌, ◌≡◌, ◌≢◌, refl, ap, ◌∙◌, true, false, some, List, [], ◌∷◌, ltb_lt, ◌==◌, ==_iff,
  update, arith, count, Bool-cases, inl, inr,
}
use x.Base.Outcome.{ok}
use x.LinkedList.{LinkedList, is_nil, first?}
use x.Thread.State.{Kernel, running}
use x.Thread.Runq.{thread_list_dequeue, thread_runq_get_list, search_lists, thread_runq_get_next}
use x.Thread.Queue.{queued, search_lem}

module _ ⦃lib : LinkedList⦄ where
  open lib use {
    Head, nodes, list_first, list_insert_tail, list_remove, nodes-insert_tail, nodes-remove,
    empty-nodes, first-nodes,
  }

  -- A thread that waits in the list of priority `p`: ready to run, and not the idle thread.
  pub record IsReady (k : Kernel) (p t : ℕ) : Type 0 where
    pub runs : (k.threads t).state ≡ running
    pub priority : (k.threads t).priority ≡ p
    pub not_idle : t ≢ k.idle

  -- Each list holds ready threads of its priority, each of them once.
  pub record IsQueue (k : Kernel) : Type 0 where
    pub once : (p t : ℕ) → p < 20 → count t (nodes (k.lists p)) ≤ 1
    pub member : (p t : ℕ) → p < 20 → 0 < count t (nodes (k.lists p)) → IsReady k p t

  -- What `thread_runq_get_next` chooses: the idle thread if no thread is ready, and else the first of
  -- the highest list that holds one.
  pub data Chosen (k : Kernel) : ℕ → Kernel → Type 0 where
    idles : k.nr_threads ≡ 0 → Chosen k k.idle (record k { current = k.idle })
    takes :
        (p t : ℕ) (l : Head)
        → p < 20
        → nodes (k.lists p) ≡ t ∷ nodes l
        → ((q : ℕ) → p < q → q < 20 → is_nil (nodes (k.lists q)) ≡ true)
        → Chosen k t (record k { current = t; lists = update k.lists p l })

  nonempty : (xs : List ℕ) → is_nil xs ≡ false → (t : ℕ) × (rest : List ℕ) × (xs ≡ t ∷ rest)
  nonempty [] e = absurd (cc)
  nonempty (t ∷ rest) e = (t, rest, refl)

  dequeue_lem :
      (l : Head) (t : ℕ) → list_first l ≡ some t → thread_list_dequeue l ≡ ok (t, list_remove l t)
  unfolding thread_list_dequeue
  dequeue_lem l t e = rw (e, thread_list_dequeue)

  pub get_list_lem : (k : Kernel) (p : ℕ) → p < 20 → thread_runq_get_list k p ≡ ok (k.lists p)
  unfolding thread_runq_get_list
  get_list_lem k p lt = rw (ltb_lt p 20 lt)

  take_code :
      (k : Kernel) (p t : ℕ)
      → (k.nr_threads == 0) ≡ false
      → search_lists k.lists 20 ≡ p
      → p < 20
      → list_first (k.lists p) ≡ some t
      → thread_runq_get_next k
        ≡ ok (t, record k { current = t; lists = update k.lists p (list_remove (k.lists p) t) })
  unfolding thread_runq_get_next
  take_code k p t n e lt first = rw (n, e, get_list_lem k p lt, dequeue_lem (k.lists p) t first)

  -- With the threads queued by priority and counted, `thread_runq_get_next` returns: the idle thread if
  -- none waits, and else the first thread of the highest list that is not empty, taken off it.
  pub get_next-Chosen :
      (k : Kernel)
      → IsQueue k
      → k.nr_threads ≡ queued 20 k.lists
      → (t : ℕ) × (k' : Kernel) × (thread_runq_get_next k ≡ ok (t, k')) × Chosen k t k'
  unfolding thread_runq_get_next
  get_next-Chosen k v n = elim (Bool-cases (k.nr_threads == 0)) [
    | inl none_left ↦ (
      k.idle,
      record k { current = k.idle },
      rw none_left,
      idles ((==_iff k.nr_threads 0).0 none_left),
    )
    | inr some_left ↦
        let p = search_lists k.lists 20 in
        let (lt, here, above) = search_lem 20 k.lists (ground arith) in
        let (t, rest, e) = nonempty (nodes (k.lists p)) here in
        let first : list_first (k.lists p) ≡ some t = first-nodes (k.lists p) ∙ ap first? e in
        let alone : count t (nodes (k.lists p)) ≡ 1 = ground (arith, v.once p t lt) in
        let left : nodes (list_remove (k.lists p) t) ≡ rest =
          nodes-remove (k.lists p) t alone ∙ ground (arith, e) in
        (
          t,
          _,
          take_code k p t some_left refl lt first,
          takes p t (list_remove (k.lists p) t) lt (rw left e) above,
        )
  ]
