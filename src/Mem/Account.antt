-- ===== src/Mem/Account.antt =====
-- The blocks in use of src/mem.c against the regions that callers hold, over one call.
use x.Base.{
  ℕ, ◌+◌, ◌%◌, ◌≤◌, ◌<◌, ◌≡◌, refl, ap, sym, ◌∙◌, subst, arith, none, some, Option, ◌==◌,
  if◌then◌else◌, List, [], ◌∷◌, ◌++◌, leb,
}
use x.Base.Outcome.{ok}
use x.LinkedList.{LinkedList}
use x.Mem.{Heap, mem_heap_size, mem_setup, mem_alloc, mem_free}
use x.Mem.Blocks.{Block, unused, total, Tiles, IsTiled, IsValid}
use x.Mem.Located.{locate}
use x.Mem.Alloc.{carve, Carved, Allocated, carved, refused, mem_alloc-Allocated, convert_enough}
use x.Mem.Free.{release, mem_free-release}
use x.Mem.Regions.{
  Region, count_ptr, erase_ptr, Held, Held-mono, Held-erase, count_ptr-erase, UsedBlock, used_block,
}
use x.Mem.Live.{
  weigh, blocks_at, bytes_at, weigh-carve, weigh-release, blocks_at-le, bytes_at-within,
}
use x.Mem.Setup.{IsPlaced, mem_setup-IsValid}

module _ ⦃lib : LinkedList⦄ where
  -- The heap at address `a` is valid, and its blocks in use are those of the regions held.
  pub record Accounts (a : ℕ) (h : Heap) (live : List Region) : Type 0 where
    pub place : h.mem_heap ≡ a
    pub blocks : List Block
    pub valid : IsValid h blocks
    pub owned : (p : ℕ) → count_ptr p live ≡ blocks_at p a blocks
    pub held : Held a blocks live

  pub setup-Accounts : {h0 h : Heap} → IsPlaced h0 → mem_setup h0 ≡ ok h → Accounts h0.mem_heap h []
  setup-Accounts {h0} p e =
      let (g, code, v, place) = mem_setup-IsValid h0 p in
      let same : g ≡ _ = cc in
      subst (λ g. Accounts h0.mem_heap g []) same
        (record {
          place = place;
          blocks = unused mem_heap_size ∷ [];
          valid = v;
          owned = λ q. refl;
          held = tt;
        })

  Allocated-some :
      {h : Heap} {bs : List Block} {n p : ℕ} {r : Option ℕ} {g : Heap}
      → Allocated h bs n r g
      → r ≡ some p
      → Carved h bs n p g
  Allocated-some (refused small same) e = absurd (cc)
  Allocated-some {h} {bs} {n} {p} {g} (carved {p = q} c) e =
      let same : q ≡ p = cc in subst (λ p. Carved h bs n p g) same c

  Allocated-none :
      {h : Heap} {bs : List Block} {n : ℕ} {r : Option ℕ} {g : Heap}
      → Allocated h bs n r g
      → r ≡ none
      → g ≡ h
  Allocated-none (refused small same) e = same
  Allocated-none (carved c) e = absurd (cc)

  -- What the view says once a block is carved for a new region.
  pub Carved-Accounts :
      {a n p : ℕ} {h g : Heap} {live : List Region} (size : ℕ) (acc : Accounts a h live)
      → Carved h acc.blocks n p g
      → size + 8 ≤ n
      → Accounts a g ((p, size) ∷ live)
  Carved-Accounts {a} {n} {p} {h} {g} {live} size acc c enough = record {
    place = c.heap ∙ acc.place;
    blocks = after;
    valid = c.valid;
    owned = λ q. ground (arith, acc.owned q, grown (λ s. 1) q);
    held = (
      ground (arith, grown (λ s. s) p, c.enough),
      Held-mono a acc.blocks after live (λ q. ground (arith, grown (λ s. s) q)) acc.held,
    );
  }
    where
      after : List Block
      after = c.pre ++ (carve n c.size ++ c.post)

      at : a + total c.pre + 4 ≡ p
      at = omega (arith, c.place, acc.place)

      grown :
          (f : ℕ → ℕ) (q : ℕ)
          → weigh f q a after
            ≡ weigh f q a acc.blocks
              + (if p == q then f (if leb (n + 16) c.size then n else c.size) else 0)
      grown f q = rw (← at) (
          weigh-carve f q a n c.size c.pre c.post
          ∙ ap
              (λ bs.
                weigh f q a bs
                + (if (a + total c.pre + 4) == q
                    then f (if leb (n + 16) c.size then n else c.size)
                    else 0))
              (sym c.split))

  pub Carved-blocks :
      {a n p : ℕ} {h g : Heap} {live : List Region} (size : ℕ) (acc : Accounts a h live)
      (c : Carved h acc.blocks n p g) (enough : size + 8 ≤ n)
      → (Carved-Accounts size acc c enough).blocks ≡ c.pre ++ (carve n c.size ++ c.post)
  unfolding Carved-Accounts
  Carved-blocks size acc c enough = refl

  pub alloc-Accounts :
      {a p : ℕ} {h g : Heap} {live : List Region} (size : ℕ)
      → Accounts a h live
      → 0 < size
      → size ≤ 4294967284
      → mem_alloc h size ≡ ok (some p, g)
      → Accounts a g ((p, size) ∷ live)
  alloc-Accounts {a} {p} {h} {g} {live} size acc pos small e =
      let (r, g', code, done) = mem_alloc-Allocated h acc.blocks size acc.valid pos in
      let same : g' ≡ g = cc in
      subst (λ g. Accounts a g ((p, size) ∷ live)) same
        (Carved-Accounts size acc (Allocated-some done (cc)) (convert_enough size small).0)

  pub refuse-Accounts :
      {a : ℕ} {h g : Heap} {live : List Region} (size : ℕ)
      → Accounts a h live
      → 0 < size
      → mem_alloc h size ≡ ok (none, g)
      → Accounts a g live
  refuse-Accounts {a} {h} {g} {live} size acc pos e =
      let (r, g', code, done) = mem_alloc-Allocated h acc.blocks size acc.valid pos in
      let back : g' ≡ h = Allocated-none done (cc) in
      let same : h ≡ g = cc in subst (λ g. Accounts a g live) same acc

  -- A region that is held belongs to one block in use, and `mem_free` of it returns.
  pub release_code :
      {a : ℕ} {h : Heap} {live : List Region} (p : ℕ)
      → Accounts a h live
      → 0 < count_ptr p live
      → (g : Heap) × (mem_free h (some p) ≡ ok g) × Accounts a g (erase_ptr p live)
  release_code {a} {h} {live} p acc mine =
      let (g, code, v, place) =
        mem_free-release h u.pre u.size u.post (subst (IsValid h) u.split acc.valid) in
      (
        g,
        rw (← at) at code,
        record {
          place = place ∙ acc.place;
          blocks = after;
          valid = v;
          owned = λ q. omega (arith, acc.owned q, fewer (λ s. 1) q, count_ptr-erase p q live mine);
          held =
              Held-erase a p acc.blocks after live (λ q ne. ground (arith, fewer (λ s. s) q)) once
                acc.held;
        },
      )
    where
      u : UsedBlock acc.blocks a p
      u = used_block acc.blocks a p (omega (arith, acc.owned p))

      after : List Block
      after = release u.pre u.size u.post

      at : p ≡ h.mem_heap + total u.pre + 4
      at = omega (arith, u.place, acc.place)

      tiles : Tiles h.word a acc.blocks
      tiles = subst (λ m. Tiles h.word m acc.blocks) acc.place acc.valid.tiled.tiles

      once : count_ptr p live ≤ 1
      once = omega (arith, acc.owned p, blocks_at-le h.word p a acc.blocks tiles)

      fewer :
          (f : ℕ → ℕ) (q : ℕ)
          → weigh f q a after + (if p == q then f u.size else 0) ≡ weigh f q a acc.blocks
      fewer f q =
          let at' : a + total u.pre + 4 ≡ p = omega (arith, u.place) in
          rw (← at') (weigh-release f q a u.size u.pre u.post ∙ ap (weigh f q a) (sym u.split))

  pub free-Accounts :
      {a : ℕ} {h g : Heap} {live : List Region} (p : ℕ)
      → Accounts a h live
      → 0 < count_ptr p live
      → mem_free h (some p) ≡ ok g
      → Accounts a g (erase_ptr p live)
  free-Accounts {a} {h} {g} {live} p acc mine e =
      let (g', code, acc') = release_code p acc mine in
      let same : g' ≡ g = cc in subst (λ g. Accounts a g (erase_ptr p live)) same acc'

  -- A region with room in its block lies in the heap, and is aligned.
  pub region_bounds :
      {a : ℕ} {h : Heap} {live : List Region} (p n : ℕ)
      → Accounts a h live
      → 0 < count_ptr p live
      → (acc : Accounts a h live) → n + 8 ≤ bytes_at p a acc.blocks
      → (a ≤ p) × (p + n ≤ a + mem_heap_size) × (p % 4 ≡ 0)
  region_bounds {a} {h} p n _ mine acc room =
      let tiles = subst (λ m. Tiles h.word m acc.blocks) acc.place acc.valid.tiled.tiles in
      let used : 0 < blocks_at p a acc.blocks = omega (arith, acc.owned p) in
      let within = bytes_at-within h.word p a acc.blocks tiles used in
      let u = used_block acc.blocks a p used in
      let here =
        locate u.pre u.post {a = h.mem_heap + total u.pre} refl
          (subst (IsTiled h) u.split acc.valid.tiled) in
      (
        omega (arith, within),
        omega (arith, within, acc.valid.tiled.covers),
        omega (arith, u.place, acc.place, here.aligned),
      )
