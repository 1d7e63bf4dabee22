-- ===== src/Mem.antt =====
-- src/mem.c: a first-fit allocator with boundary tags. A `size_t` of the heap is read and written
-- by its address; the free list links payload addresses, four bytes behind their blocks.
pub mod Blocks
pub mod Located
pub mod Tags
pub mod FreeList
pub mod Merge
pub mod Find
pub mod Alloc
pub mod Free
pub mod Live
pub mod Regions
pub mod Setup
pub mod Account
pub mod Payload
pub mod Room
pub mod History
mod Tests
mod Examples
use x.Base.{
  ℕ, ◌+◌, ◌-◌, ◌%◌, Bool, true, false, not, ◌&&◌, ◌||◌, Option, none, some, List, [], ◌∷◌, ltb, leb,
  ◌==◌, if◌then◌else◌, update,
}
use x.Base.Word.{add32, sub32}
use x.Base.Outcome.{Outcome, ok, panic, blocked, ◌>>=◌, ◌>>◌, assert}
use x.LinkedList.{LinkedList}

-- 32 MiB
abbrev pub mem_heap_size : ℕ
mem_heap_size = 33554432

abbrev pub mem_align : ℕ
mem_align = 4

-- `P2ROUND(x, 4)` of lib/macros.h is `-(-x & -4)`, in 32 bits
abbrev pub p2round : ℕ → ℕ
p2round x = sub32 0 (sub32 0 x - sub32 0 x % 4)

-- two boundary tags of 4 bytes, and a node of two pointers
abbrev pub mem_block_min_size : ℕ
mem_block_min_size = 16

pub mem_aligned : ℕ → Bool
mem_aligned value = value % 4 == 0

-- the allocation flag is the lowest bit of a boundary tag
pub mem_btag_allocated : ℕ → Bool
mem_btag_allocated value = not (value % 2 == 0)

pub mem_btag_size : ℕ → ℕ
mem_btag_size value = value - value % 2

pub mem_convert_to_block_size : ℕ → ℕ
mem_convert_to_block_size size =
    let total = add32 (p2round size) 8 in
    if ltb total mem_block_min_size then mem_block_min_size else total

module _ ⦃lib : LinkedList⦄ where
  open lib use {Head, list_init, list_insert_head, list_remove, nodes}

  -- The address that the linker gave to `mem_heap`, the words of memory, the free list, and whether
  -- `mem_mutex` is held.
  pub record Heap : Type 0 where
    pub mem_heap : ℕ
    pub word : ℕ → ℕ
    pub free_nodes : Head
    pub locked : Bool

  pub mem_heap_end : Heap → ℕ
  mem_heap_end h = add32 h.mem_heap mem_heap_size

  pub write : Heap → ℕ → ℕ → Heap
  write h btag value = record h { word = update h.word btag value }

  pub mem_btag_set_allocated : Heap → ℕ → Heap
  mem_btag_set_allocated h btag = write h btag (h.word btag - h.word btag % 2 + 1)

  pub mem_btag_clear_allocated : Heap → ℕ → Heap
  mem_btag_clear_allocated h btag = write h btag (h.word btag - h.word btag % 2)

  pub mem_btag_init : Heap → ℕ → ℕ → Heap
  mem_btag_init h btag size = mem_btag_set_allocated (write h btag size) btag

  pub mem_block_size : Heap → ℕ → ℕ
  mem_block_size h block = mem_btag_size (h.word block)

  pub mem_block_from_payload : ℕ → ℕ
  mem_block_from_payload payload = sub32 payload 4

  pub mem_block_payload : ℕ → ℕ
  mem_block_payload block = add32 block 4

  pub mem_block_end : Heap → ℕ → ℕ
  mem_block_end h block = add32 block (mem_block_size h block)

  pub mem_block_footer_btag : Heap → ℕ → ℕ
  mem_block_footer_btag h block = sub32 (mem_block_end h block) 4

  -- `NULL` is `none`.
  pub mem_block_prev : Heap → ℕ → Option ℕ
  mem_block_prev h block =
      if block == h.mem_heap
      then none
      else some (sub32 block (mem_btag_size (h.word (sub32 block 4))))

  pub mem_block_next : Heap → ℕ → Option ℕ
  mem_block_next h block =
      let next = mem_block_end h block in if next == mem_heap_end h then none else some next

  pub mem_block_allocated : Heap → ℕ → Bool
  mem_block_allocated h block = mem_btag_allocated (h.word block)

  pub mem_block_set_allocated : Heap → ℕ → Heap
  mem_block_set_allocated h block =
      let h' = mem_btag_set_allocated h block in
      mem_btag_set_allocated h' (mem_block_footer_btag h' block)

  pub mem_block_clear_allocated : Heap → ℕ → Heap
  mem_block_clear_allocated h block =
      let h' = mem_btag_clear_allocated h block in
      mem_btag_clear_allocated h' (mem_block_footer_btag h' block)

  pub mem_block_init : Heap → ℕ → ℕ → Heap
  mem_block_init h block size =
      let h' = mem_btag_init h block size in mem_btag_init h' (mem_block_footer_btag h' block) size

  pub mem_block_get_free_node : Heap → ℕ → Outcome ℕ
  mem_block_get_free_node h block = do
    assert (not (mem_block_allocated h block))
    ok (mem_block_payload block)

  pub mem_block_inside_heap : Heap → ℕ → Bool
  mem_block_inside_heap h block =
      leb h.mem_heap block
      && ltb (mem_block_payload block) (mem_heap_end h)
      && leb (mem_block_end h block) (mem_heap_end h)

  pub mem_free_list_add : Heap → ℕ → Outcome Heap
  mem_free_list_add h block = do
    assert (mem_block_allocated h block)
    let h' = mem_block_clear_allocated h block
    free_node ← mem_block_get_free_node h' block
    ok (record h' { free_nodes = list_insert_head h'.free_nodes free_node })

  pub mem_free_list_remove : Heap → ℕ → Outcome Heap
  mem_free_list_remove h block = do
    assert (not (mem_block_allocated h block))
    free_node ← mem_block_get_free_node h block
    ok (
        mem_block_set_allocated (record h { free_nodes = list_remove h.free_nodes free_node })
          block)

  -- `list_for_each_entry` over the nodes, stopped by the first block that is large enough.
  pub find_loop : Heap → ℕ → List ℕ → Option ℕ
  find_loop h size [] = none
  find_loop h size (free_node ∷ rest) =
      let block = mem_block_from_payload free_node in
      if leb size (mem_block_size h block) then some block else find_loop h size rest

  pub mem_free_list_find : Heap → ℕ → Option ℕ
  mem_free_list_find h size = find_loop h size (nodes h.free_nodes)

  pub mem_free_list_init : Heap → Heap
  mem_free_list_init h = record h { free_nodes = list_init }

  pub mem_block_inside : Heap → ℕ → ℕ → Bool
  mem_block_inside h block addr = leb block addr && ltb addr (mem_block_end h block)

  pub mem_block_overlap : Heap → ℕ → ℕ → Bool
  mem_block_overlap h block1 block2 =
      mem_block_inside h block1 block2 || mem_block_inside h block2 block1

  pub mem_block_split : Heap → ℕ → ℕ → Outcome (Option ℕ × Heap)
  mem_block_split h block size = do
    assert (mem_block_allocated h block)
    assert (mem_aligned size)
    let total_size = mem_block_size h block
    if ltb total_size (add32 size mem_block_min_size) then ok (none, h) else do
      let h' = mem_block_init h block size
      let block2 = mem_block_end h' block
      ok (some block2, mem_block_init h' block2 (sub32 total_size size))

  pub mem_block_merge : Heap → ℕ → ℕ → Outcome (Option ℕ × Heap)
  mem_block_merge h block1 block2 = do
    assert (not (mem_block_overlap h block1 block2))
    if mem_block_allocated h block1 || mem_block_allocated h block2 then ok (none, h) else do
      h ← mem_free_list_remove h block1
      h ← mem_free_list_remove h block2
      let size = add32 (mem_block_size h block1) (mem_block_size h block2)
      let first = if ltb block2 block1 then block2 else block1
      h ← mem_free_list_add (mem_block_init h first size) first
      ok (some first, h)

  -- `mutex_lock` and `mutex_unlock` on `mem_mutex`: a caller that finds it held has to wait.
  pub lock : Heap → Outcome Heap
  lock h = if h.locked then blocked else ok (record h { locked = true })

  pub unlock : Heap → Outcome Heap
  unlock h = if h.locked then ok (record h { locked = false }) else panic

  pub mem_setup : Heap → Outcome Heap
  mem_setup h = do
    let h' = mem_free_list_init (mem_block_init h h.mem_heap mem_heap_size)
    h ← mem_free_list_add h' h.mem_heap
    ok (record h { locked = false })

  -- What `mem_alloc` does with the result of the search, under the mutex.
  pub mem_alloc_found : Heap → ℕ → Option ℕ → Outcome (Option ℕ × Heap)
  mem_alloc_found h size none = do h ← unlock h; ok (none, h)
  mem_alloc_found h size (some block) = do
    h ← mem_free_list_remove h block
    (block2, h) ← mem_block_split h block size
    h ← elim block2 [ none ↦ ok h | some b ↦ mem_free_list_add h b ]
    h ← unlock h
    let ptr = mem_block_payload block
    assert (mem_aligned ptr)
    ok (some ptr, h)

  pub mem_alloc : Heap → ℕ → Outcome (Option ℕ × Heap)
  mem_alloc h size = if size == 0 then ok (none, h) else do
    let size = mem_convert_to_block_size size
    h ← lock h
    mem_alloc_found h size (mem_free_list_find h size)

  -- The merge with the block before, if there is one; it gives the block that `mem_free` goes on with.
  pub merge_prev : Heap → ℕ → Outcome (ℕ × Heap)
  merge_prev h block = elim (mem_block_prev h block) [
    | none ↦ ok (block, h)
    | some prev ↦ do
      (merged, h) ← mem_block_merge h block prev
      ok ((elim merged [ none ↦ block | some b ↦ b ]), h)
  ]

  pub merge_next : Heap → ℕ → Outcome Heap
  merge_next h block = elim (mem_block_next h block) [
    | none ↦ ok h
    | some next ↦ do (_, h) ← mem_block_merge h block next; ok h
  ]

  -- `free(NULL)` does nothing.
  pub mem_free : Heap → Option ℕ → Outcome Heap
  mem_free h none = ok h
  mem_free h (some ptr) = do
    assert (mem_aligned ptr)
    let block = mem_block_from_payload ptr
    assert (mem_block_inside_heap h block)
    h ← lock h
    h ← mem_free_list_add h block
    (block, h) ← merge_prev h block
    h ← merge_next h block
    unlock h
