-- ===== src/Sw/Controls.antt =====
-- The shell commands of src/sw.c that start and stop the stopwatch.
use x.Base.{ℕ, ◌+◌, ◌<◌, ◌≡◌, refl, ap, ◌∙◌, true, false, not, count, ◌==◌, if◌then◌else◌, arith}
use x.Base.Word.{add32, sub32}
use x.Base.Outcome.{Outcome, ok, ◌>>=◌}
use x.LinkedList.{LinkedList}
use x.Timer.{timer_now, timer_schedule}
use x.Timer.Order.{IsOrdered, schedule-IsOrdered}
use x.Sw.{Stopwatch, sw_unlock, sw_count, sw_timer_run, sw_shell_start, sw_shell_stop}
use x.Sw.Quiet.{IsCalm, IsFree, held, sw_lock_lem, sw_unlock_lem}

module _ ⦃lib : LinkedList⦄ where
  open lib use {nodes}

  -- What `sw_shell_start` does with the mutex, for a stopwatch that runs or not.
  abbrev starting : ℕ → Stopwatch → Outcome Stopwatch
  starting sw_timer s = do
    timers ← timer_schedule s.timers sw_timer (add32 (timer_now s.timers) 1)
    ok (record s { sw_ticks = 0; sw_timer_scheduled = true; timers = timers })

  pub start_running :
      (sw_timer : ℕ) (s : Stopwatch) (waiter : ℕ)
      → IsCalm s.sync.base.kernel
      → IsFree s.sync.base.mutex
      → s.sw_timer_scheduled ≡ true
      → sw_shell_start sw_timer s waiter ≡ ok s
  unfolding sw_shell_start
  start_running sw_timer s waiter c f on = rw (sw_lock_lem s waiter c f) (
      ap (λ b. (if b then ok (held s) else starting sw_timer (held s)) >>= sw_unlock) on
      ∙ sw_unlock_lem s (held s) c f refl)

  -- What `sw_shell_start` leaves of a stopwatch that stood still.
  pub record Started (base sw_timer : ℕ) (s s' : Stopwatch) : Type 0 where
    pub zeroed : s'.sw_ticks ≡ 0
    pub scheduled : s'.sw_timer_scheduled ≡ true
    pub ordered : IsOrdered base s'.timers
    pub next : (s'.timers.timers sw_timer).ticks ≡ add32 s.timers.timer_ticks 1
    pub linked :
        (x : ℕ)
        → count x (nodes s'.timers.timer_list)
          ≡ count x (nodes s.timers.timer_list) + (if sw_timer == x then 1 else 0)
    pub same_sync : s'.sync ≡ s.sync

  pub start_lem :
      (base sw_timer : ℕ) (s : Stopwatch) (waiter : ℕ)
      → IsCalm s.sync.base.kernel
      → IsFree s.sync.base.mutex
      → s.sw_timer_scheduled ≡ false
      → IsOrdered base s.timers
      → count sw_timer (nodes s.timers.timer_list) ≡ 0
      → sub32 (add32 s.timers.timer_ticks 1) base < 2147483648
      → (s' : Stopwatch) × (sw_shell_start sw_timer s waiter ≡ ok s') × Started base sw_timer s s'
  unfolding sw_shell_start timer_now
  start_lem base sw_timer s waiter c f off ordered absent near =
      let (t', scheduled, ordered', next, linked, others) =
        schedule-IsOrdered base s.timers sw_timer (add32 s.timers.timer_ticks 1) ordered absent
          (omega arith) near in
      let s1 : Stopwatch = record (held s) {
        sw_ticks = 0;
        sw_timer_scheduled = true;
        timers = t';
      } in
      let body : starting sw_timer (held s) ≡ ok s1 = rw scheduled refl in
      (
        record s1 { sync = s.sync },
        rw (sw_lock_lem s waiter c f) (
            ap (λ b. (if b then ok (held s) else starting sw_timer (held s)) >>= sw_unlock) off
            ∙ rw body (sw_unlock_lem s s1 c f refl)),
        record {
          zeroed = refl;
          scheduled = refl;
          ordered = ordered';
          next = next;
          linked = linked;
          same_sync = refl;
        },
      )

  stopped_run :
      (sw_timer : ℕ) (s : Stopwatch) (waiter : ℕ)
      → IsCalm s.sync.base.kernel
      → IsFree s.sync.base.mutex
      → s.sw_timer_scheduled ≡ false
      → sw_timer_run sw_timer s waiter ≡ ok s
  unfolding sw_timer_run
  stopped_run sw_timer s waiter c f off = rw (sw_lock_lem s waiter c f) (
      ap (λ b. (if not b then ok (held s) else sw_count sw_timer (held s)) >>= sw_unlock) off
      ∙ sw_unlock_lem s (held s) c f refl)

  -- For a thread with its preemption level below the limit that was not told to yield and
  -- finds the mutex free without waiters, `sw_shell_stop` returns and changes nothing but
  -- that the stopwatch stands still, and the next `sw_timer_run` then changes nothing: the
  -- ticks stay, and the timer is not scheduled again.
  pub stop_lem :
      (sw_timer : ℕ) (s : Stopwatch) (waiter timer_waiter : ℕ)
      → IsCalm s.sync.base.kernel
      → IsFree s.sync.base.mutex
      → (s' : Stopwatch) × (sw_shell_stop sw_timer s waiter ≡ ok s')
        × (s' ≡ record s { sw_timer_scheduled = false })
        × (sw_timer_run sw_timer s' timer_waiter ≡ ok s')
  unfolding sw_shell_stop
  stop_lem sw_timer s waiter timer_waiter c f =
      let s' : Stopwatch = record s { sw_timer_scheduled = false } in
      (
        s',
        rw (sw_lock_lem s waiter c f)
            (sw_unlock_lem s (record (held s) { sw_timer_scheduled = false }) c f refl),
        refl,
        stopped_run sw_timer s' timer_waiter c f refl,
      )
