-- ===== src/Mem/Merge.antt =====
-- `mem_block_split` and `mem_block_merge` of src/mem.c on the view of the heap.
use x.Base.{
  ℕ, ◌+◌, ◌-◌, ◌%◌, ◌≤◌, ◌<◌, ◌≡◌, refl, true, false, arith, none, some, ◌==◌, ◌⊎◌, List, [], ◌∷◌,
  ◌++◌, append_assoc, ltb,
}
use x.Base.Word.{add32, sub32}
use x.Base.Outcome.{ok}
use x.LinkedList.{LinkedList}
use x.Mem.{
  Heap, mem_aligned, mem_block_size, mem_block_init, mem_block_split, mem_block_merge,
  mem_block_inside, mem_block_overlap, mem_free_list_add,
}
use x.Mem.Blocks.{Block, in_use, unused, total, Tiles, total-append, IsTiled}
use x.Mem.Located.{Located, locate, replace}
use x.Mem.Tags.{tags, size_lem, end_lem, allocated_lem, init_block}
use x.Mem.FreeList.{Tiles-tags, add_lem, remove_lem}

module _ ⦃lib : LinkedList⦄ {h : Heap} (pre post : List Block) {a : ℕ}
    (at : a ≡ h.mem_heap + total pre) where
  -- A block that would leave less than a minimal block behind is not split.
  pub split_small :
      (s size : ℕ)
      → IsTiled h (pre ++ in_use s ∷ post)
      → size % 4 ≡ 0
      → size ≤ s
      → s < size + 16
      → mem_block_split h a size ≡ ok (none, h)
  unfolding mem_block_split mem_aligned
  split_small s size v four le small =
      let here = locate pre post at v in
      rw (allocated_lem here, size_lem here) (ground (arith, here.high, here.fits, here.low))

  pub split_lem :
      (s size : ℕ)
      → IsTiled h (pre ++ in_use s ∷ post)
      → size % 4 ≡ 0
      → 16 ≤ size
      → size + 16 ≤ s
      → let w = tags (tags h.word a size (size + 1)) (a + size) (s - size) (s - size + 1) in
        let h' = record h { word = w } in
        (mem_block_split h a size ≡ ok (some (a + size), h'))
        × IsTiled h' (pre ++ in_use size ∷ in_use (s - size) ∷ post)
  unfolding mem_block_split mem_aligned
  split_lem s size v four big le = (
    code,
    replace pre post at (in_use s ∷ []) (in_use size ∷ in_use (s - size) ∷ []) _ h.free_nodes v
        (omega arith) outside two (λ p. refl),
  )
    where
      here : Located h a (in_use s)
      here = locate pre post at v

      outside :
          (p : ℕ)
          → (p < a) ⊎ (a + (s + 0) ≤ p)
          → tags (tags h.word a size (size + 1)) (a + size) (s - size) (s - size + 1) p ≡ h.word p
      outside p out = ground (arith, here.sized)

      two :
          Tiles
            (tags (tags h.word a size (size + 1)) (a + size) (s - size) (s - size + 1))
            a
            (in_use size ∷ in_use (s - size) ∷ [])
      two = (
        (big, four),
        ground arith,
        ground arith,
        ((omega arith, omega (arith, here.sized)), ground arith, ground arith, tt),
      )

      h1 : Heap
      h1 = record h { word = tags h.word a size (size + 1) }

      front : Located h1 a (in_use size)
      front = record {
        header = ground arith;
        footer = ground arith;
        sized = (big, four);
        aligned = here.aligned;
        low = here.low;
        high = omega (arith, here.high);
        fits = here.fits;
        positive = here.positive;
      }

      aligned : ((size % 4) == 0) ≡ true
      aligned = ground arith

      large : ltb s (add32 size 16) ≡ false
      large = ground (arith, here.high, here.fits, here.low)

      rest : sub32 s size ≡ s - size
      rest = omega (arith, here.high, here.fits, here.low)

      code :
          mem_block_split h a size
          ≡ ok (
            some (a + size),
            record h1 { word = tags h1.word (a + size) (s - size) (s - size + 1) },
          )
      code = rw (
        allocated_lem here,
        size_lem here,
        aligned,
        large,
        init_block h a size big four (omega (arith, here.high, here.fits)),
        end_lem front,
        rest,
        init_block h1 (a + size) (s - size) (omega arith) (omega (arith, here.sized))
            (omega (arith, here.high, here.fits)),
      )

pub behind :
    (m : ℕ) (pre : List Block) (b : Block) {a : ℕ}
    → a ≡ m + total pre
    → a + b.size ≡ m + total (pre ++ (b ∷ []))
behind m pre b at = omega (arith, total-append pre (b ∷ []))

module _ ⦃lib : LinkedList⦄ where
  -- Two heaps of the same place and lock.
  abbrev pub Same : Heap → Heap → Type 0
  Same h g = (g.mem_heap ≡ h.mem_heap) × (g.locked ≡ h.locked)

  -- The same blocks, with the first of two neighbours taken to the blocks in front.
  pub regroup :
      {h : Heap} (pre : List Block) (b : Block) (post : List Block)
      → IsTiled h (pre ++ b ∷ post)
      → IsTiled h ((pre ++ (b ∷ [])) ++ post)
  regroup pre b post v = rw append_assoc v

  pub ungroup :
      {h : Heap} (pre : List Block) (b : Block) (post : List Block)
      → IsTiled h ((pre ++ (b ∷ [])) ++ post)
      → IsTiled h (pre ++ b ∷ post)
  ungroup pre b post v = rw append_assoc at v

module _ ⦃lib : LinkedList⦄ {h : Heap} (pre post : List Block) {a : ℕ}
    (at : a ≡ h.mem_heap + total pre) where
  -- The second of two neighbours, at its place.
  locate_next : (b c : Block) → IsTiled h (pre ++ b ∷ c ∷ post) → Located h (a + b.size) c
  locate_next b c v = locate (pre ++ (b ∷ [])) post (behind _ pre b at) (regroup pre b (c ∷ post) v)

  module _ (b c : Block) (v : IsTiled h (pre ++ b ∷ c ∷ post)) where
    apart :
        (mem_block_overlap h a (a + b.size) ≡ false) × (mem_block_overlap h (a + b.size) a ≡ false)
    unfolding mem_block_overlap mem_block_inside
    apart =
        let first = locate pre (c ∷ post) at v in
        let second = locate_next b c v in
        rw (end_lem first, end_lem second)
          (ground (arith, first.sized, second.sized), ground (arith, first.sized, second.sized))

    -- Neighbours that are not both free stay as they are.
    pub merge_used :
        (b.used ≡ true) ⊎ (c.used ≡ true)
        → (mem_block_merge h a (a + b.size) ≡ ok (none, h))
          × (mem_block_merge h (a + b.size) a ≡ ok (none, h))
    unfolding mem_block_merge
    merge_used u =
        rw
          (
            apart.0,
            apart.1,
            allocated_lem (locate pre (c ∷ post) at v),
            allocated_lem (locate_next b c v),
          )
          (ground arith)

  -- Two neighbours taken off the free list become one block, and that a free one.
  join :
      (s t : ℕ)
      → IsTiled h (pre ++ in_use s ∷ in_use t ∷ post)
      → (g : Heap) × (mem_free_list_add (mem_block_init h a (s + t)) a ≡ ok g)
        × IsTiled g (pre ++ unused (s + t) ∷ post)
        × Same h g
  join s t v =
      let first = locate pre (in_use t ∷ post) at v in
      let second = locate_next (in_use s) (in_use t) v in
      let w = tags h.word a (s + t) (s + t + 1) in
      let init =
        init_block h a (s + t) (omega (arith, first.sized))
          (omega (arith, first.sized, second.sized)) (omega (arith, second.high, second.fits)) in
      let v1 =
        replace pre post at (in_use s ∷ in_use t ∷ []) (in_use (s + t) ∷ []) w h.free_nodes v
          (omega arith) (λ p out. ground (arith, first.sized, second.sized))
          (Tiles-tags h.word a (in_use (s + t)) (omega (arith, first.sized))
            (omega (arith, first.sized, second.sized)))
          (λ p. refl) in
      let done = add_lem {h = record h { word = w }} pre post at (s + t) v1 in
      (_, rw init done.0, done.1, (refl, refl))

  -- The size of the joined block, as `mem_block_merge` adds it up.
  sizes :
      (s t : ℕ)
      → IsTiled h (pre ++ in_use s ∷ in_use t ∷ post)
      → (add32 (mem_block_size h a) (mem_block_size h (a + s)) ≡ s + t)
        × (add32 (mem_block_size h (a + s)) (mem_block_size h a) ≡ s + t)
  sizes s t v =
      let first = locate pre (in_use t ∷ post) at v in
      let second = locate_next (in_use s) (in_use t) v in
      rw (size_lem first, size_lem second) (omega (arith, second.high, second.fits, second.low))

module _ ⦃lib : LinkedList⦄ {h : Heap} (pre post : List Block) {a : ℕ}
    (at : a ≡ h.mem_heap + total pre) (s t : ℕ)
    (v : IsTiled h (pre ++ unused s ∷ unused t ∷ post)) where
  neighbours : Located h a (unused s) × Located h (a + s) (unused t)
  neighbours = (locate pre (unused t ∷ post) at v, locate_next pre post at (unused s) (unused t) v)

  -- Two free neighbours become one free block, given in order.
  pub merge_up :
      (g : Heap) × (mem_block_merge h a (a + s) ≡ ok (some a, g))
      × IsTiled g (pre ++ unused (s + t) ∷ post)
      × Same h g
  unfolding mem_block_merge
  merge_up =
      let (first, second) = neighbours in
      let one = remove_lem pre (unused t ∷ post) at s v in
      let two =
        remove_lem (pre ++ (in_use s ∷ [])) post (behind _ pre (in_use s) at) t
          (regroup pre (in_use s) (unused t ∷ post) one.1) in
      let both = ungroup pre (in_use s) (in_use t ∷ post) two.1 in
      let last = join pre post at s t both in
      let order : ltb (a + s) a ≡ false = ground arith in
      (
        last.0,
        rw (
          (apart pre post at (unused s) (unused t) v).0,
          allocated_lem first,
          allocated_lem second,
          one.0,
          two.0,
          order,
          (sizes pre post at s t both).0,
          last.1,
        ),
        last.2,
        last.3,
      )

  -- The same for the two in the other order.
  pub merge_down :
      (g : Heap) × (mem_block_merge h (a + s) a ≡ ok (some a, g))
      × IsTiled g (pre ++ unused (s + t) ∷ post)
      × Same h g
  unfolding mem_block_merge
  merge_down =
      let (first, second) = neighbours in
      let one =
        remove_lem (pre ++ (unused s ∷ [])) post (behind _ pre (unused s) at) t
          (regroup pre (unused s) (unused t ∷ post) v) in
      let two =
        remove_lem pre (in_use t ∷ post) at s (ungroup pre (unused s) (in_use t ∷ post) one.1) in
      let last = join pre post at s t two.1 in
      let order : ltb a (a + s) ≡ true = ground (arith, first.sized) in
      (
        last.0,
        rw (
          (apart pre post at (unused s) (unused t) v).1,
          allocated_lem first,
          allocated_lem second,
          one.0,
          two.0,
          order,
          (sizes pre post at s t two.1).1,
          last.1,
        ),
        last.2,
        last.3,
      )
