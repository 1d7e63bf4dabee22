-- ===== src/Mem/Room.antt =====
-- When `mem_alloc` of src/mem.c has memory to give: the largest free block of the heap.
use x.Base.{
  ℕ, ◌+◌, ◌-◌, ◌≤◌, ◌<◌, ◌≡◌, ap, sym, subst, arith, none, some, Option, Bool-cases, inl, inr,
  if◌then◌else◌, ltb, List, [], ◌∷◌, ◌++◌,
}
use x.Base.Outcome.{ok}
use x.LinkedList.{LinkedList}
use x.Mem.{Heap, mem_alloc, mem_convert_to_block_size}
use x.Mem.Blocks.{Block, unused}
use x.Mem.Find.{eq_unused}
use x.Mem.Alloc.{carve, Allocated, refused, carved, mem_alloc-Allocated, convert_enough}
use x.Mem.Regions.{Region}
use x.Mem.Account.{Accounts, Carved-Accounts, Carved-blocks}

-- The size of the largest free block.
abbrev pub largest : List Block → ℕ
largest [] = 0
largest (b ∷ bs) =
    let rest = largest bs in if b.used then rest else if ltb rest b.size then b.size else rest

largest_bound :
    (n : ℕ) (bs : List Block)
    → 0 < n
    → ((pre : List Block) (s : ℕ) (post : List Block) → bs ≡ pre ++ unused s ∷ post → s < n)
    → largest bs < n
largest_bound n [] pos small = pos
largest_bound n (b ∷ bs) pos small =
    let rest =
      largest_bound n bs pos (λ pre s post e. small (b ∷ pre) s post (ap (λ bs. b ∷ bs) e)) in
    elim (Bool-cases b.used) [
      | inl u ↦ ground (arith, rest, u)
      | inr f ↦
          let here = small [] b.size bs (ap (λ c. c ∷ bs) (eq_unused b f)) in
          ground (arith, rest, here, f)
    ]

-- A request takes its block size, and at most 16 bytes that are too few for a block, off the largest.
largest-carve :
    (n s : ℕ) (pre post : List Block)
    → largest (pre ++ unused s ∷ post) ≤ largest (pre ++ (carve n s ++ post)) + n + 16
largest-carve n s [] post = ground arith
largest-carve n s (b ∷ pre) post = ground (arith, largest-carve n s pre post)

module _ ⦃lib : LinkedList⦄ where
  -- With a free block of 35 bytes more than the request, `mem_alloc` gives a region, and takes no more
  -- than that off the largest free block.
  pub room_lem :
      {a : ℕ} {h : Heap} {live : List Region} (size m : ℕ)
      → (acc : Accounts a h live) → 0 < size
      → size ≤ 4294967284
      → m ≤ largest acc.blocks
      → size + 35 ≤ m
      → (p : ℕ) × (g : Heap) × (mem_alloc h size ≡ ok (some p, g))
        × (acc' : Accounts a g ((p, size) ∷ live)) × (m - (size + 35) ≤ largest acc'.blocks)
  room_lem {a} {h} {live} size m acc pos small room enough =
      let (r, g, code, done) = mem_alloc-Allocated h acc.blocks size acc.valid pos in
      go r g code done
    where
      go :
          (r : Option ℕ) (g : Heap)
          → mem_alloc h size ≡ ok (r, g)
          → Allocated h acc.blocks (mem_convert_to_block_size size) r g
          → (p : ℕ) × (g : Heap) × (mem_alloc h size ≡ ok (some p, g))
            × (acc' : Accounts a g ((p, size) ∷ live)) × (m - (size + 35) ≤ largest acc'.blocks)
      go none g code (refused all same) =
          let few =
            largest_bound (mem_convert_to_block_size size) acc.blocks
              (omega (arith, pos, convert_enough size small)) all in
          absurd (omega (arith, few, convert_enough size small, room, enough))
      go (some p) g code (carved c) =
          let large = (convert_enough size small).0 in
          let less = largest-carve (mem_convert_to_block_size size) c.size c.pre c.post in
          let before : m ≤ largest (c.pre ++ unused c.size ∷ c.post) =
            subst (λ bs. m ≤ largest bs) c.split room in
          (
            p,
            g,
            code,
            Carved-Accounts size acc c large,
            subst (λ bs. m - (size + 35) ≤ largest bs) (sym (Carved-blocks size acc c large))
                (omega (arith, less, before, convert_enough size small)),
          )
