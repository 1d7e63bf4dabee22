-- ===== src/Mem/Setup.antt =====
-- `mem_setup` of src/mem.c.
use x.Base.{◌+◌, ◌%◌, ◌<◌, ◌≡◌, refl, false, arith, inl, [], ◌∷◌}
use x.Base.Outcome.{ok}
use x.LinkedList.{LinkedList}
use x.Mem.{Heap, mem_heap_size, mem_setup, mem_free_list_init}
use x.Mem.Blocks.{in_use, unused, IsTiled, IsValid, IsTiled-locked}
use x.Mem.Tags.{init_block, tags}
use x.Mem.FreeList.{Tiles-tags, add_lem}

module _ ⦃lib : LinkedList⦄ where
  -- Where the linker puts the heap: aligned, not at `NULL`, and below the end of the address space.
  pub record IsPlaced (h : Heap) : Type 0 where
    pub aligned : h.mem_heap % 4 ≡ 0
    pub positive : 0 < h.mem_heap
    pub fits : h.mem_heap + mem_heap_size < 4294967296

  -- With the heap aligned, not at `NULL`, and below the end of the address space, `mem_setup` returns,
  -- and leaves a valid heap of one free block.
  pub mem_setup-IsValid :
      (h : Heap)
      → IsPlaced h
      → (g : Heap) × (mem_setup h ≡ ok g)
        × IsValid g (unused mem_heap_size ∷ [])
        × (g.mem_heap ≡ h.mem_heap)
  unfolding mem_setup mem_free_list_init
  mem_setup-IsValid h p =
      let w = tags h.word h.mem_heap mem_heap_size (mem_heap_size + 1) in
      let h1 = record h { word = w; free_nodes = lib.list_init } in
      let v : IsTiled h1 (in_use mem_heap_size ∷ []) = record {
        aligned = p.aligned;
        positive = p.positive;
        fits = p.fits;
        covers = refl;
        tiles = Tiles-tags h.word h.mem_heap (in_use mem_heap_size) (omega arith) (omega arith);
        linked = λ q. rw lib.nodes-init;
      } in
      let (added, v1) = add_lem {h = h1} [] [] {a = h.mem_heap} (omega arith) mem_heap_size v in
      let init = init_block h h.mem_heap mem_heap_size (omega arith) (omega arith) p.fits in
      (
        _,
        rw (init, added),
        record { tiled = IsTiled-locked false v1; coalesced = (inl refl, tt); unlocked = refl },
        refl,
      )
