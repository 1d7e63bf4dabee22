-- ===== src/Sw/Examples.antt =====
-- The theorems on src/sw.c in the small system of Thread/Runs, where thread 2 runs, and thread 4 sleeps;
-- the stopwatch's timer is at 7.
use Prim.Native.String.{String}
use x.Base.{ℕ, ◌≡◌, refl, true, false, Option, none, some, [], ◌∷◌, arith}
use x.Base.Outcome.{ok}
use x.LinkedList.{sequences}
use x.Thread.Runs.{at, at-IsSystem}
use x.Condvar.{Condvar}
use x.Timer.{Timers}
use x.Timer.Order.{IsOrdered}
use x.Sw.{Stopwatch, sw_timer_run, sw_shell_stop, sw_shell_wait}
use x.Sw.Quiet.{IsCalm, IsFree}
use x.Sw.Run.{Counted, IsWaiter, run_lem}
use x.Sw.Controls.{stop_lem}
use x.Sw.Wait.{Waiting, wait_lem}

-- No timer is on the list; that of the stopwatch occurred at 200.
abbrev processed : Timers
processed = record {
  timers = λ t. record { ticks = 200; fn = 0; arg = 0 };
  timer_ticks = 200;
  timer_list_empty = true;
  timer_wakeup_ticks = 200;
  timer_list = [];
  timer_thread = some 3;
  locked = false;
}

-- Thread 4 waits for tick 100.
abbrev sync : Condvar
sync = record {
  base = record {
    kernel = at 0;
    mutex = record { waiters = []; owner = none; locked = false };
    waiter_threads = λ w. 0;
  };
  waiters = 101 ∷ [];
  waiter_at = λ w. record { thread = 4; awaken = false };
}

abbrev counting : Stopwatch
counting = record {
  sync = sync;
  timers = processed;
  sw_ticks = 99;
  sw_timer_scheduled = true;
  sw_shell_waiting = true;
  sw_wait_ticks = 100;
  messages = [];
}

calm : IsCalm (at 0)
calm = record { few = omega arith; calm = refl }

free : IsFree sync.base.mutex
free = record { owner = refl; unlocked = refl; alone = refl }

processed-IsOrdered : IsOrdered 200 processed
processed-IsOrdered = record {
  word = omega arith;
  near = λ x c. absurd (omega arith);
  sorted = tt;
  once = λ x. omega arith;
  unlocked = refl;
  empty = refl;
  wakeup = λ x e. absurd (cc);
}

waits : IsWaiter sync 101
waits = record {
  first = refl;
  alive = λ e. ground arith;
  other = λ e. omega arith;
  busy = λ e. omega arith;
  low = omega arith;
}

run_lem_example :
    (s' : Stopwatch) × (sw_timer_run 7 counting 300 ≡ ok s') × Counted 200 7 counting s'
run_lem_example =
    run_lem 200 7 counting 300 refl calm free (at-IsSystem 0).orderly (omega arith) (omega arith)
      processed-IsOrdered refl (omega arith) (λ now. (101, waits))

stop_lem_example :
    (s' : Stopwatch) × (sw_shell_stop 7 counting 300 ≡ ok s')
    × (s' ≡ record counting { sw_timer_scheduled = false })
    × (sw_timer_run 7 s' 400 ≡ ok s')
stop_lem_example = stop_lem 7 counting 300 400 calm free

abbrev reads : String → Option ℕ
reads arg = some 30

wait_lem_example :
    (s' : Stopwatch) × (sw_shell_wait 7 reads counting 2 "30" 300 400 ≡ ok s')
    × Waiting (at 0) (101 ∷ []) 400 s'.sync
    × (s'.sw_shell_waiting ≡ true)
    × (s'.sw_wait_ticks ≡ 3099)
    × (s'.sw_ticks ≡ 99)
    × (s'.timers ≡ processed)
wait_lem_example =
    wait_lem 7 reads counting "30" 30 300 400 refl (omega arith) refl (at-IsSystem 0) refl refl refl
      (λ e. omega arith) free refl
