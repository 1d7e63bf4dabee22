-- ===== src/Mem/Examples.antt =====
-- The theorems on src/mem.c at concrete heaps.
use x.Base.{ℕ, ◌+◌, ◌≤◌, ◌%◌, ◌≡◌, refl, some, false, [], ◌∷◌, Option, arith, inl, ◌⊎◌}
use x.Base.Outcome.{Outcome, ok, ◌>>=◌}
use x.LinkedList.{sequences}
use x.Mem.{
  Heap, mem_heap_end, write, mem_btag_set_allocated, mem_btag_clear_allocated, mem_btag_init,
  mem_block_size, mem_block_from_payload, mem_block_payload, mem_block_end, mem_block_footer_btag,
  mem_block_prev, mem_block_next, mem_block_allocated, mem_block_set_allocated,
  mem_block_clear_allocated, mem_block_init, mem_block_get_free_node, mem_block_inside_heap,
  mem_free_list_add, mem_free_list_remove, find_loop, mem_free_list_find, mem_free_list_init,
  mem_block_inside, mem_block_overlap, mem_block_split, mem_block_merge, lock, unlock, mem_setup,
  mem_alloc, mem_alloc_found, mem_free, mem_aligned, mem_btag_allocated, mem_btag_size,
  mem_convert_to_block_size, mem_heap_size,
}
use x.Mem.Blocks.{in_use, IsValid}
use x.Mem.Find.{Found, find_lem}
use x.Mem.Alloc.{convert_wraps, Allocated, mem_alloc_lem}
use x.Mem.Free.{release, mem_free-release}
use x.Mem.Setup.{IsPlaced}
use x.Mem.Account.{Accounts}
use x.Mem.History.{Reach, setup, alloc, Reach-Accounts, Reach-free, Reach-apart}

abbrev blank : Heap
blank = record { mem_heap = 0x10000; word = λ _. 0; free_nodes = []; locked = false }

blank-IsPlaced : IsPlaced blank
blank-IsPlaced = record { aligned = refl; positive = omega arith; fits = omega arith }

-- The heap held whole by one block in use.
abbrev full : Heap
full = record { mem_heap = 0x10000; word = λ _. 33554433; free_nodes = []; locked = false }

full-IsValid : IsValid full (in_use 33554432 ∷ [])
full-IsValid = record {
  tiled = record {
    aligned = refl;
    positive = omega arith;
    fits = omega arith;
    covers = refl;
    tiles = ((omega arith, refl), refl, refl, tt);
    linked = λ p. refl;
  };
  coalesced = (inl refl, tt);
  unlocked = refl;
}

-- The heap that a run ends with, and the other one where the run ends otherwise.
abbrev heap_of : {A : Type 0} → Outcome (A × Heap) → Heap
heap_of (ok (a, h)) = h
heap_of _ = blank

heap0 : Heap
unfolding mem_heap_end write mem_btag_set_allocated mem_btag_clear_allocated mem_btag_init
    mem_block_size mem_block_payload mem_block_end mem_block_footer_btag mem_block_allocated
    mem_block_set_allocated mem_block_clear_allocated mem_block_init mem_block_get_free_node
    mem_free_list_add mem_free_list_init mem_setup mem_btag_allocated mem_btag_size
heap0 = heap_of (do h ← mem_setup blank; ok (tt, h))

setup_run : mem_setup blank ≡ ok heap0
unfolding heap0 mem_heap_end write mem_btag_set_allocated mem_btag_clear_allocated mem_btag_init
    mem_block_size mem_block_payload mem_block_end mem_block_footer_btag mem_block_allocated
    mem_block_set_allocated mem_block_clear_allocated mem_block_init mem_block_get_free_node
    mem_free_list_add mem_free_list_init mem_setup mem_btag_allocated mem_btag_size
setup_run = refl

heap1 : Heap
heap1 = heap_of (mem_alloc heap0 10)

alloc_run : mem_alloc heap0 10 ≡ ok (some 0x10004, heap1)
unfolding heap0 heap1 mem_heap_end write mem_btag_set_allocated mem_btag_clear_allocated
    mem_btag_init mem_block_size mem_block_from_payload mem_block_payload mem_block_end
    mem_block_footer_btag mem_block_prev mem_block_next mem_block_allocated mem_block_set_allocated
    mem_block_clear_allocated mem_block_init mem_block_get_free_node mem_block_inside_heap
    mem_free_list_add mem_free_list_remove find_loop mem_free_list_find mem_free_list_init
    mem_block_inside mem_block_overlap mem_block_split mem_block_merge lock unlock mem_setup
    mem_alloc mem_alloc_found mem_aligned mem_btag_allocated mem_btag_size mem_convert_to_block_size
alloc_run = refl

heap2 : Heap
heap2 = heap_of (mem_alloc heap1 0x100)

second_run : mem_alloc heap1 0x100 ≡ ok (some 0x10018, heap2)
unfolding heap0 heap1 heap2 mem_heap_end write mem_btag_set_allocated mem_btag_clear_allocated
    mem_btag_init mem_block_size mem_block_from_payload mem_block_payload mem_block_end
    mem_block_footer_btag mem_block_prev mem_block_next mem_block_allocated mem_block_set_allocated
    mem_block_clear_allocated mem_block_init mem_block_get_free_node mem_block_inside_heap
    mem_free_list_add mem_free_list_remove find_loop mem_free_list_find mem_free_list_init
    mem_block_inside mem_block_overlap mem_block_split mem_block_merge lock unlock mem_setup
    mem_alloc mem_alloc_found mem_aligned mem_btag_allocated mem_btag_size mem_convert_to_block_size
second_run = refl

reach2 : Reach blank heap2 ((0x10018, 0x100) ∷ (0x10004, 10) ∷ [])
reach2 =
    alloc 0x100 (alloc 10 (setup setup_run) (omega arith) (omega arith) alloc_run) (omega arith)
      (omega arith) second_run

convert_wraps_example : mem_convert_to_block_size 4294967290 ≡ 16
convert_wraps_example = convert_wraps 4294967290 (omega arith) (omega arith)

find_lem_example : Found full (in_use 33554432 ∷ []) 20 [] (mem_free_list_find full 20)
find_lem_example = find_lem 20 full-IsValid.tiled

mem_alloc_lem_example :
    (n : ℕ) × (r : Option ℕ) × (g : Heap) × (10 + 8 ≤ n)
    × (n ≤ 10 + 19)
    × (mem_alloc full 10 ≡ ok (r, g))
    × Allocated full (in_use 33554432 ∷ []) n r g
mem_alloc_lem_example =
    mem_alloc_lem full (in_use 33554432 ∷ []) 10 full-IsValid (omega arith) (omega arith)

mem_free-release_example :
    (g : Heap) × (mem_free full (some 0x10004) ≡ ok g)
    × IsValid g (release [] 33554432 [])
    × (g.mem_heap ≡ 0x10000)
mem_free-release_example = mem_free-release full [] 33554432 [] full-IsValid

Reach-Accounts_example : Accounts 0x10000 heap2 ((0x10018, 0x100) ∷ (0x10004, 10) ∷ [])
Reach-Accounts_example = Reach-Accounts blank-IsPlaced reach2

Reach-free_example :
    (g : Heap) × (mem_free heap2 (some 0x10004) ≡ ok g) × Reach blank g ((0x10018, 0x100) ∷ [])
Reach-free_example = Reach-free 0x10004 blank-IsPlaced reach2 (omega arith)

Reach-apart_example :
    ((0x10018 + 0x100 ≤ 0x10004) ⊎ (0x10004 + 10 ≤ 0x10018))
    × (0x10000 ≤ 0x10018)
    × (0x10018 + 0x100 ≤ 0x10000 + mem_heap_size)
    × (0x10018 % 4 ≡ 0)
Reach-apart_example = Reach-apart [] [] [] 0x10018 0x100 0x10004 10 blank-IsPlaced reach2 refl
