-- ===== src/Thread/Destroy.antt =====
-- `thread_destroy` of src/thread.c, at the end of `thread_join`: the memory of the thread is given back.
use x.Base.{ℕ, ◌<◌, ◌≡◌, refl, subst, ==_eq, arith, some, List, ◌∷◌}
use x.Base.Outcome.{ok}
use x.LinkedList.{LinkedList}
use x.Mem.{Heap}
use x.Mem.Regions.{Region, count_ptr, erase_ptr}
use x.Mem.Account.{Accounts, release_code}
use x.Thread.State.{Kernel, dead}
use x.Thread.Create.{thread_size, thread_destroy}
use x.Thread.Join.{dead_lem}

module _ ⦃lib : LinkedList⦄ where
  -- In a valid heap whose newest two regions are the stack and the structure of a dead
  -- thread, as `thread_create` takes them, `thread_destroy` fails no assertion, and leaves a
  -- valid heap with the other regions only.
  pub destroy_lem :
      (k : Kernel) (heap : Heap) (a t s size : ℕ) (live : List Region)
      → (k.threads t).state ≡ dead
      → (k.threads t).stack ≡ some s
      → Accounts a heap ((s, size) ∷ (t, thread_size) ∷ live)
      → (g : Heap) × (thread_destroy k heap t ≡ ok g) × Accounts a g live
  unfolding thread_destroy
  destroy_lem k heap a t s size live gone stack acc =
      let mine : 0 < count_ptr s ((s, size) ∷ (t, thread_size) ∷ live) = ground arith in
      let (g1, free1, acc1) = release_code s acc mine in
      let left1 : erase_ptr s ((s, size) ∷ (t, thread_size) ∷ live) ≡ (t, thread_size) ∷ live =
        rw (==_eq s s refl) refl in
      let acc1' = subst (λ live. Accounts a g1 live) left1 acc1 in
      let mine2 : 0 < count_ptr t ((t, thread_size) ∷ live) = ground arith in
      let (g2, free2, acc2) = release_code t acc1' mine2 in
      let left2 : erase_ptr t ((t, thread_size) ∷ live) ≡ live = rw (==_eq t t refl) refl in
      (
        g2,
        rw (dead_lem k t gone, stack, free1, free2) refl,
        subst (λ live. Accounts a g2 live) left2 acc2,
      )
