-- ===== src/Mem/Alloc.antt =====
-- `mem_alloc` of src/mem.c: first fit, with the rest of the block given back.
use x.Base.{
  ℕ, ◌+◌, ◌-◌, ◌%◌, ◌≤◌, ◌<◌, ◌≡◌, refl, ap, sym, ◌∙◌, subst, Bool, true, false, arith, none, some,
  Option, ◌==◌, if◌then◌else◌, inl, inr, List, [], ◌∷◌, ◌++◌, count, leb, Bool-cases, ==_iff, ==_ne,
}
use x.Base.Outcome.{Outcome, ok, ◌>>=◌}
use x.LinkedList.{LinkedList}
use x.Mem.{
  Heap, mem_alloc, mem_alloc_found, mem_convert_to_block_size, lock, unlock, mem_free_list_find,
  mem_free_list_add, mem_free_list_remove, mem_block_split, mem_aligned, mem_block_payload,
  mem_block_size, mem_block_from_payload,
}
use x.Mem.Blocks.{Block, in_use, unused, total, IsTiled, IsCoalesced, IsValid, IsTiled-locked}
use x.Mem.Located.{locate, linked_here}
use x.Mem.Tags.{payload_lem}
use x.Mem.FreeList.{add_lem, remove_lem}
use x.Mem.Merge.{split_small, split_lem, behind, regroup, ungroup}
use x.Mem.Find.{FreeBlock, TooSmall, Found, nothing, found, find_lem, node_block}

-- The blocks that a request of block size `n` makes of a free block of size `s`.
abbrev pub carve : ℕ → ℕ → List Block
carve n s = if leb (n + 16) s then in_use n ∷ unused (s - n) ∷ [] else in_use s ∷ []

-- A block size is a multiple of 4, and at least the minimum.
pub convert_aligned :
    (size : ℕ) → (mem_convert_to_block_size size % 4 ≡ 0) × (16 ≤ mem_convert_to_block_size size)
unfolding mem_convert_to_block_size
convert_aligned size = ground arith

-- For a size up to 2^32 - 12, the block size holds the request and two boundary tags, and exceeds the
-- request by at most 19 bytes.
pub convert_enough :
    (size : ℕ)
    → size ≤ 4294967284
    → (size + 8 ≤ mem_convert_to_block_size size) × (mem_convert_to_block_size size ≤ size + 19)
unfolding mem_convert_to_block_size
convert_enough size h = ground arith

-- For a size above 2^32 - 12, the block size wraps around, and is the minimal one.
pub convert_wraps :
    (size : ℕ) → 4294967284 < size → size < 4294967296 → mem_convert_to_block_size size ≡ 16
unfolding mem_convert_to_block_size
convert_wraps size h lt = ground arith

IsCoalesced-used : (f : Bool) (bs : List Block) → IsCoalesced f bs → IsCoalesced true bs
IsCoalesced-used f [] c = tt
IsCoalesced-used f (b ∷ bs) c = (inl refl, c.1)

carve-IsCoalesced :
    (f : Bool) (pre post : List Block) (n s : ℕ)
    → IsCoalesced f (pre ++ unused s ∷ post)
    → IsCoalesced f (pre ++ (carve n s ++ post))
carve-IsCoalesced f [] post n s c = elim (Bool-cases (leb (n + 16) s)) [
  | inl e ↦ rw e (inr refl, (inl refl, c.1))
  | inr e ↦ rw e (inr refl, IsCoalesced-used false post c.1)
]
carve-IsCoalesced f (b ∷ pre) post n s c = (c.0, carve-IsCoalesced b.used pre post n s c.1)

module _ ⦃lib : LinkedList⦄ where
  open lib use {nodes}

  -- A free block of `bs` was carved for block size `n`, and `p` is the address of its payload.
  pub record Carved (h : Heap) (bs : List Block) (n p : ℕ) (g : Heap) : Type 0 where
    pub pre : List Block
    pub size : ℕ
    pub post : List Block
    pub split : bs ≡ pre ++ unused size ∷ post
    pub enough : n ≤ size
    pub place : p ≡ h.mem_heap + total pre + 4
    pub valid : IsValid g (pre ++ (carve n size ++ post))
    pub heap : g.mem_heap ≡ h.mem_heap

  pub data Allocated (h : Heap) (bs : List Block) (n : ℕ) : Option ℕ → Heap → Type 0 where
    refused :
        {g : Heap}
        → ((pre : List Block) (s : ℕ) (post : List Block) → bs ≡ pre ++ unused s ∷ post → s < n)
        → g ≡ h
        → Allocated h bs n none g
    carved : {p : ℕ} {g : Heap} → Carved h bs n p g → Allocated h bs n (some p) g

  -- The block at `a` taken off the list and split leaves the heap tiled by the carved blocks.
  carve_code :
      {h : Heap} (pre post : List Block) {a : ℕ} (at : a ≡ h.mem_heap + total pre) (n s : ℕ)
      (next : Heap → Outcome (Option ℕ × Heap))
      → IsTiled h (pre ++ unused s ∷ post)
      → n % 4 ≡ 0
      → 16 ≤ n
      → n ≤ s
      → (g : Heap) × ((do
        h1 ← mem_free_list_remove h a
        (block2, h2) ← mem_block_split h1 a n
        h3 ← elim block2 [ none ↦ ok h2 | some b ↦ mem_free_list_add h2 b ]
        next h3)
          ≡ next g)
        × IsTiled g (pre ++ (carve n s ++ post))
        × (g.mem_heap ≡ h.mem_heap)
        × (g.locked ≡ h.locked)
  carve_code pre post at n s next v four big le =
      let (removed, v1) = remove_lem pre post at s v in
      elim (Bool-cases (leb (n + 16) s)) [
        | inl e ↦
            let (cut, v2) = split_lem pre post at s n v1 four big (ground arith) in
            let (added, v3) =
              add_lem (pre ++ (in_use n ∷ [])) post (behind _ pre (in_use n) at) (s - n)
                (regroup pre (in_use n) (in_use (s - n) ∷ post) v2) in
            rw e (
              _,
              rw (removed, cut, added),
              ungroup pre (in_use n) (unused (s - n) ∷ post) v3,
              refl,
              refl,
            )
        | inr e ↦
            rw e (
              _,
              rw (removed, split_small pre post at s n v1 four le (ground arith)),
              v1,
              refl,
              refl,
            )
      ]

  TooSmall-mem :
      (h : Heap) (n p : ℕ) (xs : List ℕ)
      → TooSmall h n xs
      → 0 < count p xs
      → mem_block_size h (mem_block_from_payload p) < n
  TooSmall-mem h n p [] t m = absurd (omega arith)
  TooSmall-mem h n p (x ∷ xs) t m = elim (Bool-cases (x == p)) [
    | inl e ↦
        ground (arith, ap (λ q. mem_block_size h (mem_block_from_payload q)) ((==_iff x p).0 e))
    | inr e ↦ TooSmall-mem h n p xs t.1 (ground arith)
  ]

  -- If every linked block is too small, so is every free block of the view.
  all_small :
      {h : Heap} {bs : List Block} (n : ℕ)
      → IsTiled h bs
      → TooSmall h n (nodes h.free_nodes)
      → (pre : List Block) (s : ℕ) (post : List Block) → bs ≡ pre ++ unused s ∷ post
      → s < n
  all_small {h} {bs} n v t pre s post e =
      let v' = subst (IsTiled h) e v in
      let p = h.mem_heap + total pre + 4 in
      let f : FreeBlock bs h.mem_heap p = record {
        pre = pre;
        size = s;
        post = post;
        split = e;
        place = refl;
      } in
      omega (
        arith,
        TooSmall-mem h n p (nodes h.free_nodes) t
            (ground (arith, linked_here pre post {a = h.mem_heap + total pre} refl (unused s) v')),
        (node_block p v f).1,
      )

  -- The rest of `mem_alloc` under the mutex, for either result of the search.
  finish_code :
      {h : Heap} {bs : List Block} {o : Option ℕ} (n : ℕ)
      → IsValid h bs
      → n % 4 ≡ 0
      → 16 ≤ n
      → Found (record h { locked = true }) bs n (nodes h.free_nodes) o
      → (r : Option ℕ) × (g : Heap) × (mem_alloc_found (record h { locked = true }) n o ≡ ok (r, g))
        × Allocated h bs n r g
  unfolding mem_alloc_found unlock mem_aligned
  finish_code {h} n v four big (nothing small) =
      let v1 = IsTiled-locked true v.tiled in
      (
        none,
        _,
        refl,
        refused (all_small n v1 small) (sym (λ i. record h { locked = v.unlocked i })),
      )
  finish_code {h} n v four big (found {a} f) =
      let v1 =
        subst (IsTiled (record h { locked = true })) f.block.split (IsTiled-locked true v.tiled) in
      let at : a ≡ h.mem_heap + total f.block.pre = omega (arith, f.block.place) in
      let here = locate f.block.pre f.block.post at v1 in
      let aligned : mem_aligned (mem_block_payload a) ≡ true =
        rw (payload_lem here) (ground (arith, here.aligned)) in
      let (g, code, v2, place, held) =
        carve_code f.block.pre f.block.post at n f.block.size _ v1 four big f.enough in
      (
        some (a + 4),
        record g { locked = false },
        code ∙ rw (held, aligned, payload_lem here),
        carved (record {
          pre = f.block.pre;
          size = f.block.size;
          post = f.block.post;
          split = f.block.split;
          enough = f.enough;
          place = f.block.place;
          valid = record {
            tiled = IsTiled-locked false v2;
            coalesced =
                carve-IsCoalesced true f.block.pre f.block.post n f.block.size
                  (subst (IsCoalesced true) f.block.split v.coalesced);
            unlocked = refl;
          };
          heap = place;
        }),
      )

  mem_alloc_code :
      (h : Heap) (size : ℕ)
      → h.locked ≡ false
      → 0 < size
      → let n = mem_convert_to_block_size size in
        let h' = record h { locked = true } in
        mem_alloc h size ≡ mem_alloc_found h' n (mem_free_list_find h' n)
  unfolding mem_alloc lock
  mem_alloc_code h size free pos = rw (==_ne size 0 (omega arith), free)

  -- In a valid heap, `mem_alloc` of a positive size returns: a block was carved for the block size of
  -- the request, or nothing changed.
  pub mem_alloc-Allocated :
      (h : Heap) (bs : List Block) (size : ℕ)
      → IsValid h bs
      → 0 < size
      → (r : Option ℕ) × (g : Heap) × (mem_alloc h size ≡ ok (r, g))
        × Allocated h bs (mem_convert_to_block_size size) r g
  mem_alloc-Allocated h bs size v pos =
      let n = mem_convert_to_block_size size in
      let (r, g, code, done) =
        finish_code n v (convert_aligned size).0 (convert_aligned size).1
          (find_lem n (IsTiled-locked true v.tiled)) in
      (r, g, mem_alloc_code h size v.unlocked pos ∙ code, done)

  -- In a valid heap, `mem_alloc` of a positive size up to 2^32 - 12 returns, for a block size
  -- that holds the request with its two boundary tags and exceeds it by at most 19 bytes: the
  -- payload of a block carved from a free one of at least that size, with the heap still
  -- valid, or NULL, with nothing changed, if every free block is smaller.
  pub mem_alloc_lem :
      (h : Heap) (bs : List Block) (size : ℕ)
      → IsValid h bs
      → 0 < size
      → size ≤ 4294967284
      → (n : ℕ) × (r : Option ℕ) × (g : Heap) × (size + 8 ≤ n)
        × (n ≤ size + 19)
        × (mem_alloc h size ≡ ok (r, g))
        × Allocated h bs n r g
  mem_alloc_lem h bs size v pos small =
      let (r, g, code, done) = mem_alloc-Allocated h bs size v pos in
      let (enough, near) = convert_enough size small in
      (mem_convert_to_block_size size, r, g, enough, near, code, done)
