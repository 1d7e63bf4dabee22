-- ===== src/Mem/Free.antt =====
-- `mem_free` of src/mem.c: the block goes back to the free list, and is merged with its neighbours.
use x.Base.{
  ℕ, ◌+◌, ◌≡◌, refl, ap, ◌∙◌, subst, Bool, true, false, arith, none, some, if◌then◌else◌, inl, inr,
  List, [], ◌∷◌, ◌++◌, Bool-cases, ==_eq, snoc-cases,
}
use x.Base.Outcome.{Outcome, ok, ◌>>=◌}
use x.LinkedList.{LinkedList}
use x.Mem.{
  Heap, mem_heap_end, mem_free, lock, unlock, mem_aligned, mem_block_from_payload,
  mem_block_inside_heap, mem_block_prev, mem_block_next, mem_btag_size, merge_prev, merge_next,
}
use x.Mem.Blocks.{
  Block, in_use, unused, total, total-append, IsTiled, IsCoalesced, IsValid, IsTiled-locked,
}
use x.Mem.Located.{Located, locate}
use x.Mem.Tags.{payload_lem, end_lem}
use x.Mem.FreeList.{add_lem}
use x.Mem.Find.{eq_unused}
use x.Mem.Merge.{Same, behind, regroup, ungroup, merge_used, merge_up, merge_down}

-- A free block of size `s` in front of the blocks `post`, merged with the first of them if that is free.
unfoldable pub absorb : ℕ → List Block → List Block
absorb s [] = unused s ∷ []
absorb s (b ∷ post) = if b.used then unused s ∷ b ∷ post else unused (s + b.size) ∷ post

-- A free block of size `s` between the blocks `pre` and `post`, merged with its free neighbours.
unfoldable pub release : List Block → ℕ → List Block → List Block
release [] s post = absorb s post
release (b ∷ []) s post = if b.used then b ∷ absorb s post else absorb (b.size + s) post
release (b ∷ c ∷ pre) s post = b ∷ release (c ∷ pre) s post

release-snoc :
    (pre : List Block) (b : Block) (s : ℕ) (post : List Block)
    → release (pre ++ (b ∷ [])) s post
      ≡ (if b.used then pre ++ (b ∷ absorb s post) else pre ++ absorb (b.size + s) post)
unfolding release
release-snoc [] b s post = refl
release-snoc (c ∷ []) b s post = ground arith
release-snoc (c ∷ d ∷ pre) b s post = ground (arith, release-snoc (d ∷ pre) b s post)

module _ ⦃lib : LinkedList⦄ {h : Heap} (pre post : List Block) {a : ℕ}
    (at : a ≡ h.mem_heap + total pre) where
  -- The neighbour behind a block is the next block of the view, or none at the end of the heap.
  next_none : (b : Block) → IsTiled h (pre ++ b ∷ []) → mem_block_next h a ≡ none
  unfolding mem_block_next mem_heap_end
  next_none b v =
      let here = locate pre [] at v in
      rw (end_lem here) (ground (arith, v.covers, total-append pre (b ∷ []), v.fits))

  next_some :
      (b c : Block) → IsTiled h (pre ++ b ∷ c ∷ post) → mem_block_next h a ≡ some (a + b.size)
  unfolding mem_block_next mem_heap_end
  next_some b c v =
      let here = locate pre (c ∷ post) at v in
      let there = locate (pre ++ (b ∷ [])) post (behind _ pre b at) (regroup pre b (c ∷ post) v) in
      rw (end_lem here) (ground (arith, there.sized, there.high, v.fits))

  prev_some :
      (b c : Block) → IsTiled h (pre ++ b ∷ c ∷ post) → mem_block_prev h (a + b.size) ≡ some a
  unfolding mem_block_prev mem_btag_size
  prev_some b c v =
      let here = locate pre (c ∷ post) at v in
      ground (arith, here.sized, here.footer, here.high, here.low, here.fits)

module _ ⦃lib : LinkedList⦄ where
  -- `mem_free` ends by merging the block with a free one behind it.
  merge_next_lem :
      {h : Heap} (pre post : List Block) {a : ℕ} (at : a ≡ h.mem_heap + total pre) (s : ℕ)
      → IsTiled h (pre ++ unused s ∷ post)
      → (g : Heap) × (merge_next h a ≡ ok g) × IsTiled g (pre ++ absorb s post) × Same h g
  unfolding merge_next absorb
  merge_next_lem {h} pre [] at s v =
      (h, rw (next_none pre [] at (unused s) v, merge_next), v, (refl, refl))
  merge_next_lem {h} pre (b ∷ post) at s v = elim (Bool-cases b.used) [
    | inl u ↦ (
      h,
      rw (
        next_some pre post at (unused s) b v,
        merge_next,
        (merge_used pre post at (unused s) b v (inr u)).0,
      ),
      simp u v,
      (refl, refl),
    )
    | inr f ↦
        let v1 = subst (λ c. IsTiled h (pre ++ unused s ∷ c ∷ post)) (eq_unused b f) v in
        let (g, code, v2, same) = merge_up pre post at s b.size v1 in
        (g, rw (next_some pre post at (unused s) b v, merge_next, code), simp f v2, same)
  ]

  prev_none : (h : Heap) → mem_block_prev h h.mem_heap ≡ none
  unfolding mem_block_prev
  prev_none h = rw (==_eq h.mem_heap h.mem_heap refl)

  -- The two merges of `mem_free`, and what it goes on with.
  abbrev merges : Heap → ℕ → (Heap → Outcome Heap) → Outcome Heap
  merges h a next = do (block, h1) ← merge_prev h a; h2 ← merge_next h1 block; next h2

  merges_first :
      {h : Heap} (post : List Block) (s : ℕ) (next : Heap → Outcome Heap)
      → IsTiled h (unused s ∷ post)
      → (g : Heap) × (merges h h.mem_heap next ≡ next g) × IsTiled g (absorb s post) × Same h g
  unfolding merge_prev
  merges_first {h} post s next v =
      let (g, code, v1, same) = merge_next_lem [] post {a = h.mem_heap} (omega arith) s v in
      (g, rw (prev_none h, merge_prev, code), v1, same)

  merges_after :
      {h : Heap} (pre : List Block) (b : Block) (post : List Block) (s : ℕ)
      (next : Heap → Outcome Heap)
      → IsTiled h (pre ++ b ∷ unused s ∷ post)
      → (g : Heap) × (merges h (h.mem_heap + total pre + b.size) next ≡ next g)
        × IsTiled g (if b.used then pre ++ (b ∷ absorb s post) else pre ++ absorb (b.size + s) post)
        × Same h g
  unfolding merge_prev
  merges_after {h} pre b post s next v = elim (Bool-cases b.used) [
    | inl u ↦
        let (g, code, v1, same) =
          merge_next_lem (pre ++ (b ∷ [])) post (behind _ pre b refl) s
            (regroup pre b (unused s ∷ post) v) in
        (
          g,
          rw (
            prev_some pre post refl b (unused s) v,
            merge_prev,
            (merge_used pre post refl b (unused s) v (inl u)).1,
            code,
          ),
          simp u (ungroup pre b (absorb s post) v1),
          same,
        )
    | inr f ↦
        let v1 = subst (λ c. IsTiled h (pre ++ c ∷ unused s ∷ post)) (eq_unused b f) v in
        let (h1, down, v2, same) = merge_down pre post refl b.size s v1 in
        let (g, code, v3, same') =
          merge_next_lem pre post {a = h.mem_heap + total pre} (omega (arith, same.0)) (b.size + s)
            v2 in
        (
          g,
          rw (prev_some pre post refl b (unused s) v, merge_prev, down, code),
          simp f v3,
          (same'.0 ∙ same.0, same'.1 ∙ same.1),
        )
  ]

  -- Together they leave the blocks that `release` gives.
  merges_lem :
      {h : Heap} (pre post : List Block) {a : ℕ} (at : a ≡ h.mem_heap + total pre) (s : ℕ)
      (next : Heap → Outcome Heap)
      → IsTiled h (pre ++ unused s ∷ post)
      → (g : Heap) × (merges h a next ≡ next g) × IsTiled g (release pre s post) × Same h g
  unfolding release
  merges_lem {h} pre post {a} at s next v = elim (snoc-cases pre) [
    | inl e ↦
        let (g, code, v1, same) =
          merges_first post s next (subst (λ p. IsTiled h (p ++ unused s ∷ post)) e v) in
        let here : a ≡ h.mem_heap = omega (arith, ap total e) in (g, rw here code, rw e v1, same)
    | inr (front, b, e) ↦
        let (g, code, v1, same) =
          merges_after front b post s next (
            ungroup front b (unused s ∷ post)
              (subst (λ p. IsTiled h (p ++ unused s ∷ post)) e v)) in
        let here : a ≡ h.mem_heap + total front + b.size =
          omega (arith, ap total e, total-append front (b ∷ [])) in
        (g, rw here code, rw (e, release-snoc front b s post) v1, same)
  ]

absorb-IsCoalesced :
    (s : ℕ) (post : List Block) → IsCoalesced true post → IsCoalesced true (absorb s post)
unfolding absorb
absorb-IsCoalesced s [] c = (inl refl, tt)
absorb-IsCoalesced s (b ∷ post) c = elim (Bool-cases b.used) [
  | inl u ↦ simp u (inl refl, (inr refl, subst (λ f. IsCoalesced f post) u c.1))
  | inr f ↦ simp f (inl refl, subst (λ f. IsCoalesced f post) f c.1)
]

release-cons-IsCoalesced :
    (f : Bool) (b : Block) (pre : List Block) (s : ℕ) (post : List Block)
    → IsCoalesced f (b ∷ (pre ++ in_use s ∷ post))
    → IsCoalesced f (release (b ∷ pre) s post)
unfolding release
release-cons-IsCoalesced f b [] s post c = elim (Bool-cases b.used) [
  | inl u ↦ simp u (inr refl, absorb-IsCoalesced s post c.1.1)
  | inr free ↦
      let e : f ≡ true = ground arith in simp (free, e) (absorb-IsCoalesced (b.size + s) post c.1.1)
]
release-cons-IsCoalesced f b (d ∷ pre) s post c =
    (c.0, release-cons-IsCoalesced b.used d pre s post c.1)

release-IsCoalesced :
    (pre : List Block) (s : ℕ) (post : List Block)
    → IsCoalesced true (pre ++ in_use s ∷ post)
    → IsCoalesced true (release pre s post)
unfolding release
release-IsCoalesced [] s post c = absorb-IsCoalesced s post c.1
release-IsCoalesced (b ∷ pre) s post c = release-cons-IsCoalesced true b pre s post c

module _ ⦃lib : LinkedList⦄ where
  aligned_lem : {h : Heap} {a : ℕ} {b : Block} → Located h a b → mem_aligned (a + 4) ≡ true
  unfolding mem_aligned
  aligned_lem v = ground (arith, v.aligned)

  block_lem : {h : Heap} {a : ℕ} {b : Block} → Located h a b → mem_block_from_payload (a + 4) ≡ a
  unfolding mem_block_from_payload
  block_lem v = omega (arith, v.high, v.fits, v.sized)

  inside_lem : {h : Heap} {a : ℕ} {b : Block} → Located h a b → mem_block_inside_heap h a ≡ true
  unfolding mem_block_inside_heap mem_heap_end
  inside_lem v = rw (end_lem v, payload_lem v) (ground (arith, v.high, v.low, v.fits, v.sized))

  -- In a valid heap, `mem_free` of the payload of a block in use returns, with the heap still valid. The
  -- block becomes free and is merged with its free neighbours; all other blocks stay.
  pub mem_free-release :
      (h : Heap) (pre : List Block) (s : ℕ) (post : List Block)
      → IsValid h (pre ++ in_use s ∷ post)
      → (g : Heap) × (mem_free h (some (h.mem_heap + total pre + 4)) ≡ ok g)
        × IsValid g (release pre s post)
        × (g.mem_heap ≡ h.mem_heap)
  unfolding mem_free lock unlock
  mem_free-release h pre s post v =
      let a = h.mem_heap + total pre in
      let here = locate pre post {a = a} refl v.tiled in
      let h1 = record h { locked = true } in
      let (added, v1) = add_lem {h = h1} pre post {a = a} refl s (IsTiled-locked true v.tiled) in
      let (g, code, v2, same) = merges_lem pre post {a = a} refl s unlock v1 in
      let aligned : mem_aligned (a + 4) ≡ true = aligned_lem here in
      let block : mem_block_from_payload (a + 4) ≡ a = block_lem here in
      let inside : mem_block_inside_heap h a ≡ true = inside_lem here in
      (
        record g { locked = false },
        rw (aligned, block, inside, v.unlocked, added, code, unlock, same.1),
        record {
          tiled = IsTiled-locked false v2;
          coalesced = release-IsCoalesced pre s post v.coalesced;
          unlocked = refl;
        },
        same.0,
      )
