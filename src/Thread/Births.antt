-- ===== src/Thread/Births.antt =====
-- The theorems on `thread_create` and `thread_destroy` of src/thread.c in the smallest system: the idle thread runs, and holds
-- the first region of the heap.
use x.Base.{ℕ, ◌≡◌, refl, false, none, some, [], ◌∷◌, Option, arith, ◌==◌, if◌then◌else◌, inl}
use x.Base.Outcome.{ok}
use x.LinkedList.{sequences}
use x.Mem.{Heap}
use x.Mem.Blocks.{in_use, unused}
use x.Mem.Account.{Accounts}
use x.Thread.State.{Kernel, Thread, running, dead, in_code}
use x.Thread.System.{IsSystem}
use x.Thread.Create.{thread_create, thread_destroy}
use x.Thread.Destroy.{destroy_lem}
use x.Thread.Insert.{Created}
use x.Thread.Created.{create_lem}

abbrev thread_at : ℕ → Thread
thread_at t = record {
  state = if t == 0x10004 then running else dead;
  yield = false;
  preempt_level = 0;
  priority = 0;
  joiner = none;
  name = [];
  stack = none;
  sp = 0;
  point = in_code;
}

abbrev lone : Kernel
lone = record {
  threads = thread_at;
  current = 0x10004;
  nr_threads = 0;
  lists = λ p. [];
  idle = 0x10004;
  eflags = 0x202;
}

lone-IsSystem : IsSystem lone
lone-IsSystem = record {
  orderly = record {
    scheduled = record {
      queue = record { once = λ p t lt. omega arith; member = λ p t lt c. absurd (omega arith) };
      apart = λ p lt. refl;
      bounded = λ busy. absurd (busy refl);
      idle_runs = refl;
      counted = refl;
    };
    bounded = λ t alive busy. omega arith;
    present = λ t runs busy. ground arith;
    waits = λ t other alive. absurd (ground arith);
  };
  runs = refl;
  now = inl refl;
}

abbrev heap : Heap
heap = record {
  mem_heap = 0x10000;
  word = λ q. if q == 0x10000 then 65 else if q == 0x1003c then 65 else 33554368;
  free_nodes = 0x10044 ∷ [];
  locked = false;
}

heap-Accounts : Accounts 0x10000 heap ((0x10004, 52) ∷ [])
heap-Accounts = record {
  place = refl;
  blocks = in_use 64 ∷ unused 33554368 ∷ [];
  valid = record {
    tiled = record {
      aligned = refl;
      positive = omega arith;
      fits = omega arith;
      covers = refl;
      tiles = ((omega arith, refl), refl, refl, ((omega arith, refl), refl, refl, tt));
      linked = λ p. refl;
    };
    coalesced = (inl refl, (inl refl, tt));
    unlocked = refl;
  };
  owned = λ p. refl;
  held = (omega arith, tt);
}

create_lem_example :
    (r : ℕ × Option ℕ × Kernel × Heap) × (thread_create 0x1000 0x2000
        (λ size name. name)
        lone
        heap
        0x3000
        7
        (114 ∷ 117 ∷ 110 ∷ [])
        4096
        3
      ≡ ok r)
    × Created lone 0x10000 ((0x10004, 52) ∷ []) 0x1000 0x3000 7 4096 r
create_lem_example =
    create_lem 0x1000 0x2000 (λ size name. name) lone heap 0x10000 0x3000 7 (114 ∷ 117 ∷ 110 ∷ [])
      4096 3 ((0x10004, 52) ∷ []) lone-IsSystem refl (omega arith) (omega arith) heap-Accounts
      (λ t alive. ground arith) (λ e. omega arith) (omega arith) (omega arith) (omega arith)

-- A thread that is dead, with the first two regions of the heap.
abbrev buried : Kernel
buried = record lone { threads = λ t. record (thread_at t) { state = dead; stack = some 0x10044 } }

abbrev two_regions : Heap
two_regions = record {
  mem_heap = 0x10000;
  word = λ q.
      if q == 0x10000
      then 65
      else if q == 0x1003c
      then 65
      else if q == 0x10040
      then 65
      else if q == 0x1007c
      then 65
      else 33554304;
  free_nodes = 0x10084 ∷ [];
  locked = false;
}

two_regions-Accounts : Accounts 0x10000 two_regions ((0x10044, 40) ∷ (0x10004, 52) ∷ [])
two_regions-Accounts = record {
  place = refl;
  blocks = in_use 64 ∷ in_use 64 ∷ unused 33554304 ∷ [];
  valid = record {
    tiled = record {
      aligned = refl;
      positive = omega arith;
      fits = omega arith;
      covers = refl;
      tiles = (
        (omega arith, refl),
        refl,
        refl,
        ((omega arith, refl), refl, refl, ((omega arith, refl), refl, refl, tt)),
      );
      linked = λ p. refl;
    };
    coalesced = (inl refl, (inl refl, (inl refl, tt)));
    unlocked = refl;
  };
  owned = λ p. ground arith;
  held = (omega arith, (omega arith, tt));
}

destroy_lem_example :
    (g : Heap) × (thread_destroy buried two_regions 0x10004 ≡ ok g) × Accounts 0x10000 g []
destroy_lem_example =
    destroy_lem buried two_regions 0x10000 0x10004 0x10044 40 [] refl refl two_regions-Accounts
