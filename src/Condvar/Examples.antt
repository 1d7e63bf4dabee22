-- ===== src/Condvar/Examples.antt =====
-- The theorems on src/condvar.c in the small system of Thread/Runs, where thread 2 runs: the waiter of
-- thread 3 was awoken before, and thread 4 sleeps.
use x.Base.{ℕ, ◌≡◌, ◌<◌, count, refl, true, false, some, [], ◌∷◌, arith, ◌==◌, if◌then◌else◌}
use x.Base.Outcome.{ok}
use x.LinkedList.{sequences}
use x.Thread.System.{IsSystem}
use x.Thread.Runs.{at, at-IsSystem}
use x.Condvar.{CondvarWaiter, Condvar, condvar_signal, condvar_broadcast}
use x.Thread.State.{running}
use x.Condvar.Broadcast.{broadcast_lem}
use x.Condvar.Signal.{Signalled, signal_lem}

abbrev waiter_at : ℕ → CondvarWaiter
waiter_at w = record { thread = if w == 100 then 3 else 4; awaken = w == 100 }

abbrev awaited : Condvar
awaited = record {
  base = record {
    kernel = at 0;
    mutex = record { waiters = []; owner = some 2; locked = true };
    waiter_threads = λ w. 0;
  };
  waiters = 100 ∷ 101 ∷ [];
  waiter_at = waiter_at;
}

signal_lem_example :
    (c' : Condvar) × (condvar_signal awaited ≡ ok c')
    × IsSystem c'.base.kernel
    × (c'.base.mutex ≡ awaited.base.mutex)
    × Signalled waiter_at (some 101) c'
signal_lem_example =
    signal_lem awaited (at-IsSystem 0) refl (omega arith) (omega arith)
      (λ w there asleep. (λ e. ground arith, λ e. ground arith, λ e. ground arith))

broadcast_lem_example :
    (c' : Condvar) × (condvar_broadcast awaited ≡ ok c')
    × IsSystem c'.base.kernel
    × (c'.base.mutex ≡ awaited.base.mutex)
    × ((w : ℕ)
        → 0 < count w (100 ∷ 101 ∷ [])
        → ((c'.waiter_at w).awaken ≡ true)
          × ((waiter_at w).awaken ≡ false
              → (c'.base.kernel.threads (waiter_at w).thread).state ≡ running))
broadcast_lem_example =
    broadcast_lem awaited (at-IsSystem 0) refl (omega arith) (omega arith)
      (λ w there asleep. (λ e. ground arith, λ e. ground arith, λ e. ground arith))
