-- ===== src/Mem/Find.antt =====
-- `mem_free_list_find` of src/mem.c gives a free block that is large enough, if there is one.
use x.Base.{
  ℕ, ◌+◌, ◌≤◌, ◌<◌, ◌≡◌, refl, ap, subst, false, arith, none, some, Option, ◌==◌, inl, inr, List,
  [], ◌∷◌, ◌++◌, count, leb, Bool-cases,
}
use x.Base.Word.{sub32}
use x.LinkedList.{LinkedList}
use x.Mem.{Heap, find_loop, mem_free_list_find, mem_block_from_payload, mem_block_size}
use x.Mem.Blocks.{Block, unused, total, free_at, IsTiled}
use x.Mem.Located.{locate}
use x.Mem.Tags.{size_lem}

-- A free block of `bs`, the blocks from address `a` on, with payload `p`.
pub record FreeBlock (bs : List Block) (a p : ℕ) : Type 0 where
  pub pre : List Block
  pub size : ℕ
  pub post : List Block
  pub split : bs ≡ pre ++ unused size ∷ post
  pub place : p ≡ a + total pre + 4

FreeBlock-cons :
    (b : Block) {bs : List Block} {a p : ℕ} → FreeBlock bs (a + b.size) p → FreeBlock (b ∷ bs) a p
FreeBlock-cons b f = record {
  pre = b ∷ f.pre;
  size = f.size;
  post = f.post;
  split = ap (λ bs. b ∷ bs) f.split;
  place = omega (arith, f.place);
}

pub eq_unused : (b : Block) → b.used ≡ false → b ≡ unused b.size
eq_unused b e = λ i. record { size = b.size; used = e i }

-- Every address among the free payloads is that of a free block.
pub free_block : (bs : List Block) (a p : ℕ) → 0 < count p (free_at a bs) → FreeBlock bs a p
free_block [] a p h = absurd (omega arith)
free_block (b ∷ bs) a p h = elim (Bool-cases b.used) [
  | inl u ↦ FreeBlock-cons b (free_block bs (a + b.size) p (ground arith))
  | inr f ↦ elim (Bool-cases ((a + 4) == p)) [
    | inl here ↦ record {
      pre = [];
      size = b.size;
      post = bs;
      split = ap (λ c. c ∷ bs) (eq_unused b f);
      place = ground arith;
    }
    | inr other ↦ FreeBlock-cons b (free_block bs (a + b.size) p (ground arith))
  ]
]

module _ ⦃lib : LinkedList⦄ where
  open lib use {nodes}

  -- Each of the nodes `xs` belongs to a block of less than `n` bytes.
  abbrev pub TooSmall : Heap → ℕ → List ℕ → Type 0
  TooSmall h n [] = Unit {0}
  TooSmall h n (p ∷ ps) = (mem_block_size h (mem_block_from_payload p) < n) × TooSmall h n ps

  -- The first of the nodes `xs` whose block has `n` bytes.
  pub record FirstFit (h : Heap) (bs : List Block) (n : ℕ) (xs : List ℕ) (a : ℕ) : Type 0 where
    pub block : FreeBlock bs h.mem_heap (a + 4)
    pub enough : n ≤ block.size
    pub passed : List ℕ
    pub rest : List ℕ
    pub order : xs ≡ passed ++ (a + 4) ∷ rest
    pub first : TooSmall h n passed

  pub data Found (h : Heap) (bs : List Block) (n : ℕ) (xs : List ℕ) : Option ℕ → Type 0 where
    nothing : TooSmall h n xs → Found h bs n xs none
    found : {a : ℕ} → FirstFit h bs n xs a → Found h bs n xs (some a)

  Found-cons :
      {h : Heap} {bs : List Block} {n : ℕ} {xs : List ℕ} {r : Option ℕ} (p : ℕ)
      → mem_block_size h (mem_block_from_payload p) < n
      → Found h bs n xs r
      → Found h bs n (p ∷ xs) r
  Found-cons p small (nothing all) = nothing (small, all)
  Found-cons p small (found f) = found (record {
    block = f.block;
    enough = f.enough;
    passed = p ∷ f.passed;
    rest = f.rest;
    order = ap (λ l. p ∷ l) f.order;
    first = (small, f.first);
  })

  -- The block of a node of the free list.
  pub node_block :
      {h : Heap} {bs : List Block} (p : ℕ)
      → IsTiled h bs
      → (f : FreeBlock bs h.mem_heap p)
      → (mem_block_from_payload p + 4 ≡ p) × (mem_block_size h (mem_block_from_payload p) ≡ f.size)
  unfolding mem_block_from_payload
  node_block {h} {bs} p v f =
      let here =
        locate f.pre f.post {a = h.mem_heap + total f.pre} refl (subst (IsTiled h) f.split v) in
      let place : sub32 p 4 ≡ h.mem_heap + total f.pre =
        omega (arith, f.place, here.high, here.fits, here.sized) in
      rw place (omega (arith, f.place), size_lem here)

  find_loop-Found :
      {h : Heap} {bs : List Block} (n : ℕ) (xs : List ℕ)
      → IsTiled h bs
      → ((p : ℕ) → 0 < count p xs → FreeBlock bs h.mem_heap p)
      → Found h bs n xs (find_loop h n xs)
  unfolding find_loop
  find_loop-Found n [] v free = nothing tt
  find_loop-Found {h} n (p ∷ xs) v free =
      let f = free p (ground arith) in
      let (place, size) = node_block p v f in
      elim (Bool-cases (leb n (mem_block_size h (mem_block_from_payload p)))) [
        | inl fits ↦ rw fits (
            found (record {
              block = record {
                pre = f.pre;
                size = f.size;
                post = f.post;
                split = f.split;
                place = omega (arith, place, f.place);
              };
              enough = ground (arith, size);
              passed = [];
              rest = xs;
              order = rw place;
              first = tt;
            }))
        | inr small ↦
            rw small
              (Found-cons p (ground arith) (find_loop-Found n xs v (λ q m. free q (omega arith))))
      ]

  -- In a tiled heap, `mem_free_list_find` gives the first block of the free list that is large enough, or `NULL`
  -- where every block of the list is too small.
  pub find_lem :
      {h : Heap} {bs : List Block} (n : ℕ)
      → IsTiled h bs
      → Found h bs n (nodes h.free_nodes) (mem_free_list_find h n)
  unfolding mem_free_list_find
  find_lem {h} {bs} n v =
      find_loop-Found n (nodes h.free_nodes) v
        (λ p m. free_block bs h.mem_heap p (omega (arith, v.linked p)))
