-- ===== src/Mem/Located.antt =====
-- A block of the heap of src/mem.c at its place: `a` is its address, `pre` and `post` are the blocks
-- in front of it and behind it.
use x.Base.{
  ℕ, ◌+◌, ◌-◌, ◌%◌, ◌≤◌, ◌<◌, ◌≡◌, refl, ap, List, [], ◌∷◌, ◌++◌, arith, count, ◌⊎◌, inl, inr,
}
use x.LinkedList.{LinkedList}
use x.Mem.{Heap, mem_heap_size}
use x.Mem.Blocks.{
  Block, tag_of, total, IsBlock, Tiles, free_at, total-append, Tiles-append, Tiles-split,
  Tiles-frame, free_at-append, free_at-range, IsTiled,
}

total-aligned : (w : ℕ → ℕ) (a : ℕ) (bs : List Block) → Tiles w a bs → total bs % 4 ≡ 0
total-aligned w a [] t = refl
total-aligned w a (b ∷ bs) t = omega (arith, t.0, total-aligned w (a + b.size) bs t.3)

module _ ⦃lib : LinkedList⦄ where
  open lib use {nodes, Head}

  pub record Located (h : Heap) (a : ℕ) (b : Block) : Type 0 where
    pub header : h.word a ≡ tag_of b
    pub footer : h.word (a + b.size - 4) ≡ tag_of b
    pub sized : IsBlock b
    pub aligned : a % 4 ≡ 0
    pub low : h.mem_heap ≤ a
    pub high : a + b.size ≤ h.mem_heap + mem_heap_size
    pub fits : h.mem_heap + mem_heap_size < 4294967296
    pub positive : 0 < h.mem_heap

  module _ {h : Heap} (pre post : List Block) {a : ℕ} (at : a ≡ h.mem_heap + total pre) where
    pub locate : {b : Block} → IsTiled h (pre ++ b ∷ post) → Located h a b
    locate {b} v = record {
      header = rw at here.1;
      footer = rw at here.2;
      sized = here.0;
      aligned = omega (arith, total-aligned h.word h.mem_heap pre parts.0, v.aligned);
      low = omega arith;
      high = omega (arith, v.covers, total-append pre (b ∷ post));
      fits = v.fits;
      positive = v.positive;
    }
      where
        parts : Tiles h.word h.mem_heap pre × Tiles h.word (h.mem_heap + total pre) (b ∷ post)
        parts = Tiles-split h.word h.mem_heap pre (b ∷ post) v.tiles

        here : Tiles h.word (h.mem_heap + total pre) (b ∷ post)
        here = parts.1

    -- How often the free list links `p`, in terms of the blocks around `a`.
    pub linked_parts :
        (mid : List Block)
        → IsTiled h (pre ++ (mid ++ post))
        → (p : ℕ)
        → count p (nodes h.free_nodes)
          ≡ count p (free_at h.mem_heap pre)
            + count p (free_at a mid)
            + count p (free_at (a + total mid) post)
    linked_parts mid v p = rw at (
        omega (
          arith,
          v.linked p,
          free_at-append p h.mem_heap pre (mid ++ post),
          free_at-append p (h.mem_heap + total pre) mid post,
        ))

    -- The payload of the block at `a` is linked once if the block is free, and not otherwise.
    pub linked_here :
        (b : Block)
        → IsTiled h (pre ++ b ∷ post)
        → count (a + 4) (nodes h.free_nodes) ≡ count (a + 4) (free_at a (b ∷ []))
    linked_here b v =
        let parts = Tiles-split h.word h.mem_heap pre (b ∷ post) v.tiles in
        let rest : Tiles h.word (a + b.size) post = rw at parts.1.3 in
        let e : a + total (b ∷ []) ≡ a + b.size = omega arith in
        let tail : count (a + 4) (free_at (a + total (b ∷ [])) post) ≡ 0 =
          rw e (
            free_at-range h.word (a + 4) (a + b.size) post rest (inl (omega (arith, parts.1.0)))) in
        omega (
          arith,
          linked_parts (b ∷ []) v (a + 4),
          free_at-range h.word (a + 4) h.mem_heap pre parts.0 (inr (omega arith)),
          tail,
        )

    -- New blocks `mid'` in the place of `mid`, of the same total size: memory changes inside their
    -- range only, and the free list changes as the free blocks do.
    pub replace :
        (mid mid' : List Block) (w : ℕ → ℕ) (f : Head)
        → IsTiled h (pre ++ (mid ++ post))
        → total mid' ≡ total mid
        → ((p : ℕ) → (p < a) ⊎ (a + total mid ≤ p) → w p ≡ h.word p)
        → Tiles w a mid'
        → ((p : ℕ)
            → count p (nodes f) + count p (free_at a mid)
              ≡ count p (nodes h.free_nodes) + count p (free_at a mid'))
        → IsTiled (record h { word = w; free_nodes = f }) (pre ++ (mid' ++ post))
    replace mid mid' w f v same outside t links = record {
      aligned = v.aligned;
      positive = v.positive;
      fits = v.fits;
      covers = omega (
        arith,
        v.covers,
        total-append pre (mid ++ post),
        total-append pre (mid' ++ post),
        total-append mid post,
        total-append mid' post,
      );
      tiles =
          Tiles-append w h.mem_heap pre (mid' ++ post)
            (Tiles-frame h.word w h.mem_heap pre (λ p lo hi. outside p (inl (omega arith))) parts.0)
            (rw (← at) (Tiles-append w a mid' post t tail));
      linked = λ p. omega (
        arith,
        links p,
        linked_parts mid v p,
        free_at-append p h.mem_heap pre (mid' ++ post),
        ap (λ t. count p (free_at t (mid' ++ post))) at,
        free_at-append p a mid' post,
        ap (λ t. count p (free_at (a + t) post)) same,
      );
    }
      where
        parts : Tiles h.word h.mem_heap pre × Tiles h.word (h.mem_heap + total pre) (mid ++ post)
        parts = Tiles-split h.word h.mem_heap pre (mid ++ post) v.tiles

        behind : Tiles h.word (a + total mid) post
        behind = (Tiles-split h.word a mid post (rw at parts.1)).1

        tail : Tiles w (a + total mid') post
        tail =
            rw same
              (Tiles-frame h.word w (a + total mid) post (λ p lo hi. outside p (inr lo)) behind)
