-- ===== src/Mem/Blocks.antt =====
-- The blocks that tile the heap of src/mem.c: the view that its boundary tags and free list encode.
use x.Base.{
  ℕ, ◌+◌, ◌-◌, ◌%◌, ◌≤◌, ◌<◌, ◌≡◌, refl, Bool, true, false, List, [], ◌∷◌, ◌++◌, arith, count,
  if◌then◌else◌, ◌⊎◌, ◌∙◌,
}
use x.LinkedList.{LinkedList}
use x.Mem.{Heap, mem_heap_size}

pub record Block : Type 0 where
  pub size : ℕ
  pub used : Bool

abbrev pub in_use : ℕ → Block
in_use s = record { size = s; used = true }

abbrev pub unused : ℕ → Block
unused s = record { size = s; used = false }

-- the value of both boundary tags of a block
abbrev pub tag_of : Block → ℕ
tag_of b = if b.used then b.size + 1 else b.size

abbrev pub total : List Block → ℕ
total [] = 0
total (b ∷ bs) = b.size + total bs

abbrev pub IsBlock : Block → Type 0
IsBlock b = (16 ≤ b.size) × (b.size % 4 ≡ 0)

-- From address `a` on, memory holds the boundary tags of the blocks, one after the other.
abbrev pub Tiles : (ℕ → ℕ) → ℕ → List Block → Type 0
Tiles w a [] = Unit {0}
Tiles w a (b ∷ bs) =
    IsBlock b × (w a ≡ tag_of b) × (w (a + b.size - 4) ≡ tag_of b) × Tiles w (a + b.size) bs

-- the payload addresses of the free blocks, from address `a` on
abbrev pub free_at : ℕ → List Block → List ℕ
free_at a [] = []
free_at a (b ∷ bs) = let rest = free_at (a + b.size) bs in if b.used then rest else (a + 4) ∷ rest

-- No two neighbours are both free; `f` tells whether the block in front is in use.
abbrev pub IsCoalesced : Bool → List Block → Type 0
IsCoalesced f [] = Unit {0}
IsCoalesced f (b ∷ bs) = ((f ≡ true) ⊎ (b.used ≡ true)) × IsCoalesced b.used bs

pub total-append : (bs cs : List Block) → total (bs ++ cs) ≡ total bs + total cs
total-append [] cs = omega arith
total-append (b ∷ bs) cs = omega (arith, total-append bs cs)

pub Tiles-append :
    (w : ℕ → ℕ) (a : ℕ) (bs cs : List Block)
    → Tiles w a bs
    → Tiles w (a + total bs) cs
    → Tiles w a (bs ++ cs)
Tiles-append w a [] cs t u = let e : a + 0 ≡ a = omega arith in rw e at u
Tiles-append w a (b ∷ bs) cs t u =
    let e : a + (b.size + total bs) ≡ a + b.size + total bs = omega arith in
    (t.0, t.1, t.2, Tiles-append w (a + b.size) bs cs t.3 (rw e at u))

pub Tiles-split :
    (w : ℕ → ℕ) (a : ℕ) (bs cs : List Block)
    → Tiles w a (bs ++ cs)
    → Tiles w a bs × Tiles w (a + total bs) cs
Tiles-split w a [] cs t = let e : a + 0 ≡ a = omega arith in (tt, rw e t)
Tiles-split w a (b ∷ bs) cs t =
    let e : a + (b.size + total bs) ≡ a + b.size + total bs = omega arith in
    let (u, v) = Tiles-split w (a + b.size) bs cs t.3 in ((t.0, t.1, t.2, u), rw e v)

-- Writes outside the tiled range leave the tiles alone.
pub Tiles-frame :
    (w v : ℕ → ℕ) (a : ℕ) (bs : List Block)
    → ((p : ℕ) → a ≤ p → p < a + total bs → v p ≡ w p)
    → Tiles w a bs
    → Tiles v a bs
Tiles-frame w v a [] same t = tt
Tiles-frame w v a (b ∷ bs) same t = (
  t.0,
  same a (omega arith) (omega (arith, t.0)) ∙ t.1,
  same (a + b.size - 4) (omega (arith, t.0)) (omega (arith, t.0)) ∙ t.2,
  Tiles-frame w v (a + b.size) bs (λ p lo hi. same p (omega arith) (omega arith)) t.3,
)

pub free_at-append :
    (p a : ℕ) (bs cs : List Block)
    → count p (free_at a (bs ++ cs)) ≡ count p (free_at a bs) + count p (free_at (a + total bs) cs)
free_at-append p a [] cs = let e : a + 0 ≡ a = omega arith in rw e (omega arith)
free_at-append p a (b ∷ bs) cs =
    let e : a + (b.size + total bs) ≡ a + b.size + total bs = omega arith in
    rw e (ground (arith, free_at-append p (a + b.size) bs cs))

-- The free payloads of a range lie in it.
pub free_at-range :
    (w : ℕ → ℕ) (p a : ℕ) (bs : List Block)
    → Tiles w a bs
    → (p < a + 4) ⊎ (a + total bs ≤ p)
    → count p (free_at a bs) ≡ 0
free_at-range w p a [] t out = refl
free_at-range w p a (b ∷ bs) t out = ground (arith, free_at-range w p (a + b.size) bs t.3)

module _ ⦃lib : LinkedList⦄ where
  open lib use {nodes}

  -- The heap is tiled by the blocks from end to end, and the free list links the payload of each
  -- free block once, and nothing else.
  pub record IsTiled (h : Heap) (bs : List Block) : Type 0 where
    pub aligned : h.mem_heap % 4 ≡ 0
    pub positive : 0 < h.mem_heap
    pub fits : h.mem_heap + mem_heap_size < 4294967296
    pub covers : total bs ≡ mem_heap_size
    pub tiles : Tiles h.word h.mem_heap bs
    pub linked : (p : ℕ) → count p (nodes h.free_nodes) ≡ count p (free_at h.mem_heap bs)

  -- What holds between the calls of the module's interface.
  pub record IsValid (h : Heap) (bs : List Block) : Type 0 where
    pub tiled : IsTiled h bs
    pub coalesced : IsCoalesced true bs
    pub unlocked : h.locked ≡ false

  -- The view of the heap does not depend on the mutex.
  pub IsTiled-locked :
      {h : Heap} {bs : List Block} (b : Bool) → IsTiled h bs → IsTiled (record h { locked = b }) bs
  IsTiled-locked b v = record {
    aligned = v.aligned;
    positive = v.positive;
    fits = v.fits;
    covers = v.covers;
    tiles = v.tiles;
    linked = v.linked;
  }
