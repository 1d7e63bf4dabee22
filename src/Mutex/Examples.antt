-- ===== src/Mutex/Examples.antt =====
-- The theorems on src/mutex.c in the small system of Thread/Runs, where thread 2 runs: with a free
-- mutex, and with one that it holds while thread 4 sleeps for it.
use x.Base.{ℕ, ◌≡◌, refl, true, false, none, some, [], ◌∷◌, arith}
use x.Base.Outcome.{ok}
use x.LinkedList.{sequences, first?}
use x.Thread.State.{running}
use x.Thread.Runs.{at, at-IsSystem}
use x.Mutex.{MutexState, error_busy, mutex_trylock, mutex_unlock}
use x.Mutex.Own.{IsMutex}
use x.Mutex.Turn.{trylock_lem}
use x.Mutex.Unlock.{released, unlock_lem}
use x.Mutex.Trace.{IsAwake}

abbrev free : MutexState
free = record {
  kernel = at 0;
  mutex = record { waiters = []; owner = none; locked = false };
  waiter_threads = λ w. 0;
}

free-IsMutex : IsMutex free []
free-IsMutex = record {
  system = at-IsSystem 0;
  exclusive = refl;
  flag = refl;
  waiting = record {
    once = λ w. omega arith;
    waits = λ w c. absurd (omega arith);
    woken = λ w off e. cc;
  };
}

-- Thread 2 holds the mutex; thread 4 sleeps, its waiter at address 100.
abbrev awaited : MutexState
awaited = record {
  kernel = at 0;
  mutex = record { waiters = 100 ∷ []; owner = some 2; locked = true };
  waiter_threads = λ w. 4;
}

awaited-IsMutex : IsMutex awaited (2 ∷ [])
awaited-IsMutex = record {
  system = at-IsSystem 0;
  exclusive = refl;
  flag = refl;
  waiting = record {
    once = λ w. ground arith;
    waits = λ w c. (λ e. cc, λ e. omega arith);
    woken = λ w off e. cc;
  };
}

awaited-IsAwake : IsAwake awaited (100 ∷ [])
awaited-IsAwake w c e = omega arith

trylock_lem_example :
    (s' : MutexState) × (mutex_trylock awaited ≡ ok (error_busy, s'))
    × IsMutex s' (2 ∷ [])
    × (true ≡ true → s'.mutex ≡ awaited.mutex)
    × (s'.mutex.waiters ≡ 100 ∷ [])
trylock_lem_example = trylock_lem awaited (2 ∷ []) awaited-IsMutex refl (omega arith)

unlock_lem_example :
    (s' : MutexState) × (mutex_unlock awaited ≡ ok s')
    × IsMutex s' []
    × (s'.mutex ≡ released awaited)
    × ((w : ℕ) → first? (100 ∷ []) ≡ some w → (s'.kernel.threads 4).state ≡ running)
unlock_lem_example =
    unlock_lem awaited (2 ∷ []) awaited-IsMutex refl (omega arith) (omega arith) (omega arith)
      awaited-IsAwake
