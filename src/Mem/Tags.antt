-- ===== src/Mem/Tags.antt =====
-- The boundary-tag operations of src/mem.c on a block at its place.
use x.Base.{ℕ, ◌+◌, ◌-◌, ◌%◌, ◌≤◌, ◌<◌, ◌≡◌, ap, arith, ◌⊎◌, inl, inr, update}
use mathlib.Core.Path.{fun_ext}
use x.LinkedList.{LinkedList}
use x.Mem.{
  Heap, write, mem_btag_allocated, mem_btag_size, mem_btag_set_allocated, mem_btag_clear_allocated,
  mem_btag_init, mem_block_size, mem_block_end, mem_block_footer_btag, mem_block_allocated,
  mem_block_set_allocated, mem_block_clear_allocated, mem_block_init, mem_block_payload,
}
use x.Mem.Blocks.{Block, in_use, unused}
use x.Mem.Located.{Located}

-- Both tags of a block, written.
abbrev pub tags : (ℕ → ℕ) → ℕ → ℕ → ℕ → ℕ → ℕ
tags w a s v = update (update w a v) (a + s - 4) v

module _ ⦃lib : LinkedList⦄ {h : Heap} {a : ℕ} where
  pub size_lem : {b : Block} → Located h a b → mem_block_size h a ≡ b.size
  unfolding mem_block_size mem_btag_size
  size_lem v = ground arith

  pub end_lem : {b : Block} → Located h a b → mem_block_end h a ≡ a + b.size
  unfolding mem_block_end
  end_lem v = omega (arith, size_lem v)

  pub allocated_lem : {b : Block} → Located h a b → mem_block_allocated h a ≡ b.used
  unfolding mem_block_allocated mem_btag_allocated
  allocated_lem v = ground arith

  pub payload_lem : {b : Block} → Located h a b → mem_block_payload a ≡ a + 4
  unfolding mem_block_payload
  payload_lem v = omega arith

module _ ⦃lib : LinkedList⦄ (h : Heap) (a s : ℕ) where
  -- The footer is found from the header, whichever flag that has.
  footer_of_header :
      16 ≤ s
      → s % 4 ≡ 0
      → a + s < 4294967296
      → (h.word a ≡ s) ⊎ (h.word a ≡ s + 1)
      → mem_block_footer_btag h a ≡ a + s - 4
  unfolding mem_block_footer_btag mem_block_end mem_block_size mem_btag_size
  footer_of_header big four fits v = ground arith

  clear_btag :
      (v : ℕ)
      → v % 2 ≡ 0
      → h.word a ≡ v + 1
      → mem_btag_clear_allocated h a ≡ record h { word = update h.word a v }
  unfolding mem_btag_clear_allocated write
  clear_btag v even e = ap (λ t. record h { word = update h.word a t }) (omega arith)

  set_btag :
      (v : ℕ)
      → v % 2 ≡ 0
      → h.word a ≡ v
      → mem_btag_set_allocated h a ≡ record h { word = update h.word a (v + 1) }
  unfolding mem_btag_set_allocated write
  set_btag v even e = ap (λ t. record h { word = update h.word a t }) (omega arith)

  init_btag :
      (v : ℕ) → v % 2 ≡ 0 → mem_btag_init h a v ≡ record h { word = update h.word a (v + 1) }
  unfolding mem_btag_init mem_btag_set_allocated write
  init_btag v even = ap (λ w. record h { word = w }) (fun_ext λ q. ground arith)

module _ ⦃lib : LinkedList⦄ (h : Heap) (a s : ℕ) where
  pub clear_block :
      Located h a (in_use s) → mem_block_clear_allocated h a ≡ record h { word = tags h.word a s s }
  unfolding mem_block_clear_allocated
  clear_block v =
      let h1 = record h { word = update h.word a s } in
      rw (clear_btag h a s s (omega (arith, v.sized)) v.header) (
        rw
          (footer_of_header h1 a s (omega (arith, v.sized)) (omega (arith, v.sized))
            (omega (arith, v)) (inl (ground arith)))
          (clear_btag h1 (a + s - 4) s s (omega (arith, v.sized)) (ground (arith, v.footer))))

  pub set_block :
      Located h a (unused s)
      → mem_block_set_allocated h a ≡ record h { word = tags h.word a s (s + 1) }
  unfolding mem_block_set_allocated
  set_block v =
      let h1 = record h { word = update h.word a (s + 1) } in
      rw (set_btag h a s s (omega (arith, v.sized)) v.header) (
        rw
          (footer_of_header h1 a s (omega (arith, v.sized)) (omega (arith, v.sized))
            (omega (arith, v)) (inr (ground arith)))
          (set_btag h1 (a + s - 4) s s (omega (arith, v.sized)) (ground (arith, v.footer))))

  pub init_block :
      16 ≤ s
      → s % 4 ≡ 0
      → a + s < 4294967296
      → mem_block_init h a s ≡ record h { word = tags h.word a s (s + 1) }
  unfolding mem_block_init
  init_block big four fits =
      let h1 = record h { word = update h.word a (s + 1) } in
      rw (init_btag h a s s (omega arith)) (
        rw (footer_of_header h1 a s big four fits (inr (ground arith)))
          (init_btag h1 (a + s - 4) s s (omega arith)))
