-- ===== src/Thread/Queue.antt =====
-- What the lists of the run queue of src/thread.c hold, and which of them the scheduler takes.
use x.Base.{
  ℕ, zero, suc, ◌+◌, ◌≤◌, ◌<◌, ◌≡◌, refl, ap, true, false, ◌==◌, ==_ne, ==_iff, update, arith,
  length, Bool-cases, inl, inr,
}
use x.LinkedList.{LinkedList, is_nil}
use x.Thread.Runq.{thread_list_empty, search_lists}

module _ ⦃lib : LinkedList⦄ where
  open lib use {
    Head, nodes, list_insert_tail, list_remove, nodes-insert_tail, nodes-remove, empty-nodes,
    first-nodes,
  }

  -- the number of threads in the first `n` lists
  abbrev pub queued : ℕ → (ℕ → Head) → ℕ
  queued zero lists = 0
  queued (suc n) lists = length (nodes (lists n)) + queued n lists

  queued-same :
      (n p : ℕ) (lists : ℕ → Head) (l : Head) → n ≤ p → queued n (update lists p l) ≡ queued n lists
  queued-same zero p lists l h = refl
  queued-same (suc n) p lists l h =
      rw (==_ne p n (omega arith)) (omega (arith, queued-same n p lists l (omega arith)))

  pub queued-update :
      (n p : ℕ) (lists : ℕ → Head) (l : Head)
      → p < n
      → queued n (update lists p l) + length (nodes (lists p)) ≡ queued n lists + length (nodes l)
  queued-update zero p lists l h = absurd (omega arith)
  queued-update (suc n) p lists l h = elim (Bool-cases (p == n)) [
    | inl e ↦ ground (arith, queued-same n p lists l)
    | inr e ↦ ground (arith, queued-update n p lists l)
  ]

  -- The search stops at the highest list that is not empty.
  pub search_lem :
      (n : ℕ) (lists : ℕ → Head)
      → 0 < queued n lists
      → (search_lists lists n < n)
        × (is_nil (nodes (lists (search_lists lists n))) ≡ false)
        × ((p : ℕ) → search_lists lists n < p → p < n → is_nil (nodes (lists p)) ≡ true)
  unfolding search_lists thread_list_empty
  search_lem zero lists h = absurd (omega arith)
  search_lem (suc n) lists h = elim (Bool-cases (is_nil (nodes (lists n)))) [
    | inl e ↦
        let (lt, some_here, above) = search_lem n lists (ground arith) in
        rw (empty-nodes (lists n), e)
          (
            omega arith,
            some_here,
            λ p hi lo. elim (Bool-cases (p == n)) [
              | inl same ↦ ground (arith, ap (λ q. is_nil (nodes (lists q))) ((==_iff p n).0 same))
              | inr other ↦ above p hi (ground arith)
            ],
          )
    | inr e ↦ rw (empty-nodes (lists n), e) (omega arith, e, λ p hi lo. absurd (omega arith))
  ]
