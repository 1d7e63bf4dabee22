-- ===== src/Thread/Forge.antt =====
-- The first stack of a thread of src/thread.c: what `thread_switch_context` finds on it.
use x.Base.{ℕ, ◌+◌, ◌-◌, ◌<◌, ◌≤◌, ◌≡◌, refl, ap, ◌∙◌, true, leb, ◌⊎◌, arith, update, List, [], ◌∷◌}
use x.Base.Word.{add32, sub32}
use x.Base.Outcome.{ok}
use x.LinkedList.{LinkedList}
use x.Mem.{Heap}
use x.Thread.Create.{Stack, thread_stack_push, thread_stack_forge, cpu_efl_one}

module _ ⦃lib : LinkedList⦄ where
  -- A word below the stack pointer.
  abbrev pushed : Stack → ℕ → Stack
  pushed s word = record {
    heap = record s.heap { word = update s.heap.word (s.stack - 4) word };
    stack = s.stack - 4;
    stack_size = s.stack_size - 4;
  }

  push_lem :
      (s : Stack) (word : ℕ)
      → 4 ≤ s.stack_size
      → 4 ≤ s.stack
      → s.stack < 4294967296
      → thread_stack_push s word ≡ ok (pushed s word)
  unfolding thread_stack_push
  push_lem s word room low lt =
      let size : leb 4 s.stack_size ≡ true = ground (arith, room) in
      let e : sub32 s.stack 4 ≡ s.stack - 4 = omega (arith, low, lt) in rw (size, e) refl

  -- The words from an address on.
  abbrev pub WordsAt : (ℕ → ℕ) → ℕ → List ℕ → Type 0
  WordsAt word a [] = Unit {0}
  WordsAt word a (w ∷ ws) = (word a ≡ w) × WordsAt word (a + 4) ws

  -- The stack that is left by the eight calls of `thread_stack_push`.
  abbrev forged : Heap → ℕ → ℕ → ℕ → ℕ → ℕ → Stack
  forged heap start a n fn arg =
      let s : Stack = record { heap = heap; stack = a + n; stack_size = n } in
      pushed (pushed (pushed (pushed (pushed (pushed (pushed (pushed s arg) fn) start) 0) 0) 0) 0)
        cpu_efl_one

  module _ (thread_start thread_idle : ℕ) (snprintf : ℕ → List ℕ → List ℕ) where
    forge_code :
        (heap : Heap) (a n fn arg : ℕ)
        → 32 ≤ n
        → a + n < 4294967296
        → thread_stack_forge thread_start thread_idle snprintf heap a n fn arg
          ≡ ok (
            (forged heap thread_start a n fn arg).stack,
            (forged heap thread_start a n fn arg).heap,
          )
    unfolding thread_stack_forge
    forge_code heap a n fn arg room lt =
        let e : add32 a n ≡ a + n = omega (arith, lt) in
        let s : Stack = record { heap = heap; stack = a + n; stack_size = n } in
        let s1 = pushed s arg in
        let s2 = pushed s1 fn in
        let s3 = pushed s2 thread_start in
        let s4 = pushed s3 0 in
        let s5 = pushed s4 0 in
        let s6 = pushed s5 0 in
        let s7 = pushed s6 0 in
        rw
          (
            e,
            push_lem s arg (omega (arith, room)) (omega (arith, room)) lt,
            push_lem s1 fn (omega (arith, room)) (omega (arith, room)) (omega (arith, lt)),
            push_lem s2 thread_start (omega (arith, room)) (omega (arith, room))
                (omega (arith, lt)),
            push_lem s3 0 (omega (arith, room)) (omega (arith, room)) (omega (arith, lt)),
            push_lem s4 0 (omega (arith, room)) (omega (arith, room)) (omega (arith, lt)),
            push_lem s5 0 (omega (arith, room)) (omega (arith, room)) (omega (arith, lt)),
            push_lem s6 0 (omega (arith, room)) (omega (arith, room)) (omega (arith, lt)),
            push_lem s7 cpu_efl_one (omega (arith, room)) (omega (arith, room)) (omega (arith, lt)),
          )
          refl

    -- `thread_stack_forge` on a stack of at least 32 bytes below 2^32 fails no assertion. From the stack
    -- pointer on there are the flags, four registers, the return address `thread_start`, and its
    -- arguments; all words outside the last 32 bytes of the stack stay as they are.
    pub forge_lem :
        (heap : Heap) (a n fn arg : ℕ)
        → 32 ≤ n
        → a + n < 4294967296
        → (word : ℕ → ℕ) × (thread_stack_forge thread_start thread_idle snprintf heap a n fn arg
            ≡ ok (a + n - 32, record heap { word = word }))
          × WordsAt word (a + n - 32) (2 ∷ 0 ∷ 0 ∷ 0 ∷ 0 ∷ thread_start ∷ fn ∷ arg ∷ [])
          × ((q : ℕ) → (q < a + n - 32) ⊎ (a + n ≤ q) → word q ≡ heap.word q)
    forge_lem heap a n fn arg room lt =
        let f = forged heap thread_start a n fn arg in
        let sp : f.stack ≡ a + n - 32 = omega arith in
        (
          f.heap.word,
          forge_code heap a n fn arg room lt ∙ ap (λ sp. ok (sp, f.heap)) sp,
          (
            ground arith,
            (
              ground arith,
              (
                ground arith,
                (ground arith, (ground arith, (ground arith, (ground arith, (ground arith, tt))))),
              ),
            ),
          ),
          λ q out. ground arith,
        )
