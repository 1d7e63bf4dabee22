-- ===== src/Thread/Pick.antt =====
-- The second half of `thread_runq_schedule` of src/thread.c: the choice among the threads that wait.
use x.Base.{
  ℕ, zero, suc, ◌+◌, ◌≤◌, ◌<◌, ◌≡◌, ◌≢◌, refl, ap, sym, ◌∙◌, subst, true, List, [], ◌∷◌, ltb, ◌==◌,
  ==_iff, update, if◌then◌else◌, arith, count, length, Bool-cases, inl, inr,
}
use native.Mathlib.Decide.{ℕ_discrete}
use x.LinkedList.{LinkedList, is_nil}
use x.Thread.State.{Kernel, running}
use x.Thread.Queue.{queued, queued-update}
use x.Thread.Next.{IsReady, IsQueue, Chosen, idles, takes}
use x.Thread.Park.{presence, IsScheduled}

module _ ⦃lib : LinkedList⦄ where
  open lib use {Head, nodes}

  empty_list : (t : ℕ) (xs : List ℕ) → is_nil xs ≡ true → count t xs ≡ 0
  empty_list t [] e = refl
  empty_list t (x ∷ xs) e = absurd (cc)

  -- The choice among parked threads.
  pub record Picked (k k' : Kernel) : Type 0 where
    pub scheduled : IsScheduled k'
    pub runs : (k'.threads k'.current).state ≡ running
    pub highest :
        (p t : ℕ)
        → p < 20
        → 0 < count t (nodes (k'.lists p))
        → (k'.current ≢ k'.idle) × (p ≤ (k'.threads k'.current).priority)
    pub kept :
        (t : ℕ)
        → t ≢ k.idle
        → (k.threads t).priority < 20
        → presence k' t ≡ count t (nodes (k.lists (k.threads t).priority))
    pub same : k' ≡ record k { current = k'.current; lists = k'.lists }

  absent-queued :
      (n p t : ℕ) (lists : ℕ → Head) → queued n lists ≡ 0 → p < n → count t (nodes (lists p)) ≡ 0
  absent-queued zero p t lists e h = absurd (omega arith)
  absent-queued (suc n) p t lists e h = elim (Bool-cases (p == n)) [
    | inl same ↦
        subst (λ q. count t (nodes (lists q)) ≡ 0) (sym ((==_iff p n).0 same))
          (count_le t (nodes (lists n)) (omega (arith, e)))
    | inr other ↦ absent-queued n p t lists (omega (arith, e)) (ground arith)
  ]
    where
      count_le : (x : ℕ) (xs : List ℕ) → length xs ≡ 0 → count x xs ≡ 0
      count_le x [] none_left = refl
      count_le x (y ∷ ys) none_left = absurd (omega (arith, none_left))

  -- No thread is ready.
  idles-Picked :
      (k : Kernel)
      → IsQueue k
      → k.nr_threads ≡ queued 20 k.lists
      → (k.threads k.idle).state ≡ running
      → k.nr_threads ≡ 0
      → Picked k (record k { current = k.idle })
  idles-Picked k v n idle z = record {
    scheduled = record {
      queue = record {
        once = v.once;
        member = λ q t lt c.
            let r = v.member q t lt c in
            record { runs = r.runs; priority = r.priority; not_idle = r.not_idle };
      };
      apart = λ q lt. gone q k.idle lt;
      bounded = λ busy. absurd (busy refl);
      idle_runs = idle;
      counted = ground (arith, n);
    };
    runs = idle;
    highest = λ q t lt c. absurd (omega (arith, gone q t lt, c));
    kept = λ t busy bound. ground (arith, busy);
    same = refl;
  }
    where
      gone : (q t : ℕ) → q < 20 → count t (nodes (k.lists q)) ≡ 0
      gone q t lt = absent-queued 20 q t k.lists (sym n ∙ z) lt

  takes-Picked :
      (k : Kernel) (p t : ℕ) (l : Head)
      → IsQueue k
      → k.nr_threads ≡ queued 20 k.lists
      → (k.threads k.idle).state ≡ running
      → p < 20
      → nodes (k.lists p) ≡ t ∷ nodes l
      → ((q : ℕ) → p < q → q < 20 → is_nil (nodes (k.lists q)) ≡ true)
      → Picked k (record k { current = t; lists = update k.lists p l })
  takes-Picked k p t l v n idle lt e above = record {
    scheduled = record {
      queue = record {
        once = λ q s bound. omega (arith, v.once q s bound, there q s);
        member = λ q s bound c.
            let r = v.member q s bound (omega (arith, there q s, c)) in
            record { runs = r.runs; priority = r.priority; not_idle = r.not_idle };
      };
      apart = λ q bound. apart q bound;
      bounded = λ busy. omega (arith, chosen.priority, lt);
      idle_runs = idle;
      counted = ground (arith, n, queued-update 20 p k.lists l lt, ap length e, chosen.not_idle);
    };
    runs = chosen.runs;
    highest = λ q s bound c. (chosen.not_idle, highest q s bound c);
    kept = λ s busy bound. kept s;
    same = refl;
  }
    where
      chosen : IsReady k p t
      chosen = v.member p t lt (ground (arith, ap (count t) e))

      there :
          (q s : ℕ)
          → count s (nodes (update k.lists p l q))
              + (if p == q then (if t == s then 1 else 0) else 0)
            ≡ count s (nodes (k.lists q))
      there q s = ground (arith, ap (count s) e)

      kept :
          (s : ℕ)
          → presence (record k { current = t; lists = update k.lists p l }) s
            ≡ count s (nodes (k.lists (k.threads s).priority))
      kept s = elim (Bool-cases (t == s)) [
        | inl same ↦
            let prio : (k.threads s).priority ≡ p =
              subst (λ s. (k.threads s).priority ≡ p) ((==_iff t s).0 same) chosen.priority in
            ground (arith, there (k.threads s).priority s, prio, same)
        | inr other ↦ ground (arith, there (k.threads s).priority s, other)
      ]

      apart : (q : ℕ) → q < 20 → count t (nodes (update k.lists p l q)) ≡ 0
      apart q bound = elim (Bool-cases (p == q)) [
        | inl same ↦ ground (arith, there q t, v.once q t bound)
        | inr other ↦ elim (ℕ_discrete (count t (nodes (k.lists q))) 0) [
          | yes z ↦ omega (arith, there q t, z)
          | no some_there ↦
              let r = v.member q t bound (omega (arith, some_there)) in
              absurd (ground (arith, r.priority, chosen.priority, other))
        ]
      ]

      highest :
          (q s : ℕ)
          → q < 20
          → 0 < count s (nodes (update k.lists p l q))
          → q ≤ (k.threads t).priority
      highest q s bound c = elim (Bool-cases (ltb p q)) [
        | inl hi ↦ absurd (
            omega (
              arith,
              empty_list s (nodes (k.lists q)) (above q (ground arith) bound),
              there q s,
              c,
            ))
        | inr lo ↦ ground (arith, chosen.priority, lo)
      ]

  pub Chosen-Picked :
      {k k' : Kernel} {t : ℕ}
      → IsQueue k
      → k.nr_threads ≡ queued 20 k.lists
      → (k.threads k.idle).state ≡ running
      → Chosen k t k'
      → Picked k k'
  Chosen-Picked {k} v n idle (idles z) = idles-Picked k v n idle z
  Chosen-Picked {k} v n idle (takes p t l lt e above) = takes-Picked k p t l v n idle lt e above
