-- ===== src/Mem/FreeList.antt =====
-- `mem_free_list_add`, `mem_free_list_remove` and `mem_free_list_find` of src/mem.c: the first two
-- change the flag of one block of the view.
use x.Base.{ℕ, ◌+◌, ◌%◌, ◌≤◌, ◌<◌, ◌≡◌, refl, arith, ◌⊎◌, List, [], ◌∷◌, ◌++◌, count, count-erase}
use x.Base.Outcome.{ok}
use x.LinkedList.{LinkedList}
use x.Mem.{Heap, mem_block_get_free_node, mem_free_list_add, mem_free_list_remove}
use x.Mem.Blocks.{Block, in_use, unused, tag_of, total, Tiles, IsTiled}
use x.Mem.Located.{Located, locate, linked_here, replace}
use x.Mem.Tags.{tags, allocated_lem, payload_lem, clear_block, set_block}

pub Tiles-tags :
    (w : ℕ → ℕ) (a : ℕ) (b : Block)
    → 16 ≤ b.size
    → b.size % 4 ≡ 0
    → Tiles (tags w a b.size (tag_of b)) a (b ∷ [])
Tiles-tags w a b big four = ((big, four), ground arith, ground arith, tt)

-- A block whose tags are written anew stays in its place.
pub Located-tags :
    ⦃lib : LinkedList⦄ {h : Heap} {a : ℕ} {b : Block} (c : Block)
    → Located h a b
    → c.size ≡ b.size
    → Located (record h { word = tags h.word a b.size (tag_of c) }) a c
Located-tags c v same = record {
  header = ground arith;
  footer = ground (arith, v.sized);
  sized = omega (arith, v.sized);
  aligned = v.aligned;
  low = v.low;
  high = omega (arith, v.high);
  fits = v.fits;
  positive = v.positive;
}

module _ ⦃lib : LinkedList⦄ {h : Heap} (pre post : List Block) {a : ℕ}
    (at : a ≡ h.mem_heap + total pre) where
  open lib use {nodes, list_insert_head, list_remove, nodes-insert_head, nodes-remove}

  pub add_lem :
      (s : ℕ)
      → IsTiled h (pre ++ in_use s ∷ post)
      → let h' = record h {
        word = tags h.word a s s;
        free_nodes = list_insert_head h.free_nodes (a + 4);
      } in
        (mem_free_list_add h a ≡ ok h') × IsTiled h' (pre ++ unused s ∷ post)
  unfolding mem_free_list_add mem_block_get_free_node
  add_lem s v = (
    rw (allocated_lem here, clear_block h a s here, allocated_lem after, payload_lem here),
    replace pre post at (in_use s ∷ []) (unused s ∷ []) (tags h.word a s s) f v (omega arith)
        outside
        (Tiles-tags h.word a (unused s) (omega (arith, here.sized)) (omega (arith, here.sized)))
        links,
  )
    where
      here : Located h a (in_use s)
      here = locate pre post at v

      after : Located (record h { word = tags h.word a s s }) a (unused s)
      after = Located-tags (unused s) here refl

      f : lib.Head
      f = list_insert_head h.free_nodes (a + 4)

      outside : (p : ℕ) → (p < a) ⊎ (a + (s + 0) ≤ p) → tags h.word a s s p ≡ h.word p
      outside p out = ground (arith, here.sized)

      links :
          (p : ℕ) → count p (nodes f) + 0 ≡ count p (nodes h.free_nodes) + count p ((a + 4) ∷ [])
      links p =
          ground
            (arith, nodes-insert_head h.free_nodes (a + 4), linked_here pre post at (in_use s) v)

  pub remove_lem :
      (s : ℕ)
      → IsTiled h (pre ++ unused s ∷ post)
      → let h' = record h {
        word = tags h.word a s (s + 1);
        free_nodes = list_remove h.free_nodes (a + 4);
      } in
        (mem_free_list_remove h a ≡ ok h') × IsTiled h' (pre ++ in_use s ∷ post)
  unfolding mem_free_list_remove mem_block_get_free_node
  remove_lem s v = (
    rw (allocated_lem here, payload_lem here, set_block (record h { free_nodes = f }) a s unlinked),
    replace pre post at (unused s ∷ []) (in_use s ∷ []) (tags h.word a s (s + 1)) f v (omega arith)
        outside
        (Tiles-tags h.word a (in_use s) (omega (arith, here.sized)) (omega (arith, here.sized)))
        links,
  )
    where
      here : Located h a (unused s)
      here = locate pre post at v

      f : lib.Head
      f = list_remove h.free_nodes (a + 4)

      unlinked : Located (record h { free_nodes = f }) a (unused s)
      unlinked = record {
        header = here.header;
        footer = here.footer;
        sized = here.sized;
        aligned = here.aligned;
        low = here.low;
        high = here.high;
        fits = here.fits;
        positive = here.positive;
      }

      outside : (p : ℕ) → (p < a) ⊎ (a + (s + 0) ≤ p) → tags h.word a s (s + 1) p ≡ h.word p
      outside p out = ground (arith, here.sized)

      once : count (a + 4) (nodes h.free_nodes) ≡ 1
      once = ground (arith, linked_here pre post at (unused s) v)

      links :
          (p : ℕ) → count p (nodes f) + count p ((a + 4) ∷ []) ≡ count p (nodes h.free_nodes) + 0
      links p =
          rw (nodes-remove h.free_nodes (a + 4) once)
            (omega (arith, count-erase p (a + 4) (nodes h.free_nodes) (omega (arith, once))))
