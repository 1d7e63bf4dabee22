-- ===== src/Mem/Tests.antt =====
-- Runs of the allocator of src/mem.c on a heap at address 0x10000.
use x.Base.{ℕ, ◌+◌, ◌≡◌, refl, some, false, [], Option}
use x.Base.Outcome.{Outcome, ok, ◌>>=◌}
use x.LinkedList.{sequences}
use x.Mem.{
  Heap, mem_heap_end, write, mem_btag_set_allocated, mem_btag_clear_allocated, mem_btag_init,
  mem_block_size, mem_block_from_payload, mem_block_payload, mem_block_end, mem_block_footer_btag,
  mem_block_prev, mem_block_next, mem_block_allocated, mem_block_set_allocated,
  mem_block_clear_allocated, mem_block_init, mem_block_get_free_node, mem_block_inside_heap,
  mem_free_list_add, mem_free_list_remove, find_loop, mem_free_list_find, mem_free_list_init,
  mem_block_inside, mem_block_overlap, mem_block_split, mem_block_merge, lock, unlock, mem_setup,
  mem_alloc, mem_alloc_found, merge_prev, merge_next, mem_free, mem_aligned, mem_btag_allocated,
  mem_btag_size, mem_convert_to_block_size,
}

abbrev blank : Heap
blank = record { mem_heap = 0x10000; word = λ _. 0; free_nodes = []; locked = false }

session : Outcome (Option ℕ × Option ℕ × Heap)
unfolding mem_heap_end write mem_btag_set_allocated mem_btag_clear_allocated mem_btag_init
    mem_block_size mem_block_from_payload mem_block_payload mem_block_end mem_block_footer_btag
    mem_block_prev mem_block_next mem_block_allocated mem_block_set_allocated
    mem_block_clear_allocated mem_block_init mem_block_get_free_node mem_block_inside_heap
    mem_free_list_add mem_free_list_remove find_loop mem_free_list_find mem_free_list_init
    mem_block_inside mem_block_overlap mem_block_split mem_block_merge lock unlock mem_setup
    mem_alloc mem_alloc_found merge_prev merge_next mem_free mem_aligned mem_btag_allocated
    mem_btag_size mem_convert_to_block_size
session = do
  h ← mem_setup blank
  (a, h) ← mem_alloc h 10
  (b, h) ← mem_alloc h 0x100
  h ← mem_free h a
  (c, h) ← mem_alloc h 100
  (d, h) ← mem_alloc h 4
  h ← mem_free h b
  h ← mem_free h c
  h ← mem_free h d
  ok (c, d, h)

view : Outcome (Option ℕ × Option ℕ × Heap) → Outcome (Option ℕ × Option ℕ × ℕ × ℕ)
view o = do (c, d, h) ← o; ok (c, d, h.word 0x10000, h.word (0x10000 + 33554428))

session_result : view session ≡ ok (some 0x10120, some 0x1018c, 0x2000000, 0x2000000)
unfolding session view
session_result = refl
