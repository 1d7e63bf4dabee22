-- ===== src/Mem/History.antt =====
-- Histories of src/mem.c: `mem_setup`, and then calls of `mem_alloc` and `mem_free` by callers that
-- free only what they hold.
use x.Base.{
  ℕ, ◌+◌, ◌%◌, ◌≤◌, ◌<◌, ◌≡◌, ◌≢◌, ap, subst, arith, none, some, ◌==◌, if◌then◌else◌, ◌⊎◌, inl, inr,
  List, [], ◌∷◌, ◌++◌,
}
use x.Base.Outcome.{ok}
use native.Mathlib.Decide.{dec_lt}
use x.LinkedList.{LinkedList}
use x.Mem.{Heap, mem_heap_size, mem_setup, mem_alloc, mem_free}
use x.Mem.Blocks.{Tiles}
use x.Mem.Regions.{Region, count_ptr, erase_ptr, Held, count_ptr-append, Held-rest}
use x.Mem.Live.{blocks_at-le, bytes_at-apart}
use x.Mem.Setup.{IsPlaced}
use x.Mem.Account.{
  Accounts, setup-Accounts, alloc-Accounts, refuse-Accounts, release_code, free-Accounts,
  region_bounds,
}

module _ ⦃lib : LinkedList⦄ where
  -- The states of the allocator, with the regions that its callers hold, the newest first.
  pub data Reach (h0 : Heap) : Heap → List Region → Type 0 where
    setup : {h : Heap} → mem_setup h0 ≡ ok h → Reach h0 h []
    alloc :
        {h g : Heap} {live : List Region} {p : ℕ} (size : ℕ)
        → Reach h0 h live
        → 0 < size
        → size ≤ 4294967284
        → mem_alloc h size ≡ ok (some p, g)
        → Reach h0 g ((p, size) ∷ live)
    refuse :
        {h g : Heap} {live : List Region} (size : ℕ)
        → Reach h0 h live
        → 0 < size
        → mem_alloc h size ≡ ok (none, g)
        → Reach h0 g live
    free :
        {h g : Heap} {live : List Region} (p : ℕ)
        → Reach h0 h live
        → 0 < count_ptr p live
        → mem_free h (some p) ≡ ok g
        → Reach h0 g (erase_ptr p live)

  -- In every history of calls on a heap that is well placed, the heap stays valid, and its blocks in use
  -- are the regions that the callers hold: one block for each, with room for what was asked.
  pub Reach-Accounts :
      {h0 h : Heap} {live : List Region}
      → IsPlaced h0
      → Reach h0 h live
      → Accounts h0.mem_heap h live
  Reach-Accounts p (setup e) = setup-Accounts p e
  Reach-Accounts p (alloc size r pos small e) = alloc-Accounts size (Reach-Accounts p r) pos small e
  Reach-Accounts p (refuse size r pos e) = refuse-Accounts size (Reach-Accounts p r) pos e
  Reach-Accounts p (free q r mine e) = free-Accounts q (Reach-Accounts p r) mine e

  -- In every history of calls, `mem_free` of a region that is held returns, without a failed assertion,
  -- and the history goes on without that region.
  pub Reach-free :
      {h0 h : Heap} {live : List Region} (p : ℕ)
      → IsPlaced h0
      → Reach h0 h live
      → 0 < count_ptr p live
      → (g : Heap) × (mem_free h (some p) ≡ ok g) × Reach h0 g (erase_ptr p live)
  Reach-free p place r mine =
      let (g, code, acc) = release_code p (Reach-Accounts place r) mine in
      (g, code, free p r mine code)

  -- In every history of calls, two regions that are held together do not overlap; the first lies in
  -- the heap and is aligned.
  pub Reach-apart :
      {h0 h : Heap} {live : List Region} (xs ys zs : List Region) (p n q m : ℕ)
      → IsPlaced h0
      → Reach h0 h live
      → live ≡ xs ++ ((p, n) ∷ (ys ++ ((q, m) ∷ zs)))
      → ((p + n ≤ q) ⊎ (q + m ≤ p))
        × (h0.mem_heap ≤ p)
        × (p + n ≤ h0.mem_heap + mem_heap_size)
        × (p % 4 ≡ 0)
  Reach-apart {h0} {h} {live} xs ys zs p n q m place r e =
      let (low, high, aligned) = region_bounds p n acc mine acc first.0 in
      (apart, low, high, aligned)
    where
      a : ℕ
      a = h0.mem_heap

      acc : Accounts a h live
      acc = Reach-Accounts place r

      first : Held a acc.blocks ((p, n) ∷ (ys ++ ((q, m) ∷ zs)))
      first = Held-rest a acc.blocks xs _ (subst (Held a acc.blocks) e acc.held)

      second : Held a acc.blocks ((q, m) ∷ zs)
      second = Held-rest a acc.blocks ys _ first.1

      many :
          (t : ℕ)
          → count_ptr t live
            ≡ count_ptr t xs
              + ((if p == t then 1 else 0)
                  + (count_ptr t ys + ((if q == t then 1 else 0) + count_ptr t zs)))
      many t = ground (
        arith,
        ap (count_ptr t) e,
        count_ptr-append t xs ((p, n) ∷ (ys ++ ((q, m) ∷ zs))),
        count_ptr-append t ys ((q, m) ∷ zs),
      )

      tiles : Tiles h.word a acc.blocks
      tiles = subst (λ m. Tiles h.word m acc.blocks) acc.place acc.valid.tiled.tiles

      once : count_ptr p live ≤ 1
      once = omega (arith, acc.owned p, blocks_at-le h.word p a acc.blocks tiles)

      mine : 0 < count_ptr p live
      mine = ground (arith, many p)

      other : 0 < count_ptr q live
      other = ground (arith, many q)

      different : p ≢ q
      different = λ same. ground (arith, many p, once, same)

      apart : (p + n ≤ q) ⊎ (q + m ≤ p)
      apart = elim (dec_lt p q) [
        | yes lt ↦ inl (
            omega (
              arith,
              first.0,
              bytes_at-apart h.word p q a acc.blocks tiles (omega (arith, acc.owned p, mine))
                  (omega (arith, acc.owned q, other)) lt,
            ))
        | no ge ↦ inr (
            omega (
              arith,
              second.0,
              different,
              bytes_at-apart h.word q p a acc.blocks tiles (omega (arith, acc.owned q, other))
                  (omega (arith, acc.owned p, mine)) (omega (arith, different)),
            ))
      ]
