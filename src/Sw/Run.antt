-- ===== src/Sw/Run.antt =====
-- `sw_timer_run` of src/sw.c: the stopwatch counts, and rings for the shell that waits.
use x.Base.{
  ℕ, ◌+◌, ◌%◌, ◌≤◌, ◌<◌, ◌≡◌, ◌≢◌, refl, ap, sym, ◌∙◌, subst, Bool, true, false, not, ◌&&◌, some,
  List, [], ◌∷◌, ◌++◌, count, update, ◌==◌, if◌then◌else◌, Bool-cases, inl, inr, arith,
}
use x.Base.Word.{add32, sub32}
use x.Base.Outcome.{Outcome, ok, ◌>>=◌}
use x.LinkedList.{LinkedList}
use x.Thread.State.{dead}
use x.Thread.System.{IsOrderly}
use x.Mutex.Unlock.{released}
use x.Condvar.{Condvar, with_kernel, condvar_signal}
use x.Condvar.Signal.{first_asleep}
use x.Condvar.Quiet.{Roused, signal_quiet}
use x.Timer.{Timers, timer_ticks_occurred, timer_get_time, timer_schedule}
use x.Timer.Order.{IsOrdered, schedule-IsOrdered, get_time_lem}
use x.Sw.{Stopwatch, Message, ticks, say, sw_unlock, sw_notify, sw_count, sw_timer_run}
use x.Sw.Quiet.{IsCalm, IsFree, held, unlock_quiet, sw_lock_lem, sw_unlock_lem}

-- The messages with the ticks, every five seconds.
abbrev pub log : List Message → ℕ → List Message
log messages n = if n % 500 == 0 then messages ++ (ticks n ∷ []) else messages

module _ ⦃lib : LinkedList⦄ where
  open lib use {nodes}

  -- The shell's deadline occurs with the next tick.
  abbrev pub due : Stopwatch → Bool
  due s = s.sw_shell_waiting && timer_ticks_occurred s.sw_wait_ticks (add32 s.sw_ticks 1)

  -- `w` is the first waiter of the condition variable that was not awoken, and its thread one that is
  -- not dead, not current and not the idle one, of no higher priority than the current one.
  pub record IsWaiter (c : Condvar) (w : ℕ) : Type 0 where
    pub first : first_asleep c.waiter_at (nodes c.waiters) ≡ some w
    pub alive : (c.base.kernel.threads (c.waiter_at w).thread).state ≢ dead
    pub other : (c.waiter_at w).thread ≢ c.base.kernel.current
    pub busy : (c.waiter_at w).thread ≢ c.base.kernel.idle
    pub low :
        (c.base.kernel.threads (c.waiter_at w).thread).priority
        ≤ (c.base.kernel.threads c.base.kernel.current).priority

  -- What the shell gets: its waiter is marked and its thread ready, or nothing changes.
  pub data Rung (s s' : Stopwatch) : Type 0 where
    rung :
        (w : ℕ)
        → due s ≡ true
        → first_asleep s.sync.waiter_at (nodes s.sync.waiters) ≡ some w
        → s'.sw_shell_waiting ≡ false
        → Roused s.sync.base.kernel (s.sync.waiter_at w).thread s'.sync.base.kernel
        → s'.sync.waiter_at
          ≡ update s.sync.waiter_at w (record (s.sync.waiter_at w) { awaken = true })
        → Rung s s'
    silent : due s ≡ false → s'.sw_shell_waiting ≡ s.sw_shell_waiting → s'.sync ≡ s.sync → Rung s s'

  -- One tick later: the timer is on the list once more, a tick behind.
  pub record Counted (base sw_timer : ℕ) (s s' : Stopwatch) : Type 0 where
    pub counts : s'.sw_ticks ≡ add32 s.sw_ticks 1
    pub scheduled : s'.sw_timer_scheduled ≡ true
    pub shown : s'.messages ≡ log s.messages (add32 s.sw_ticks 1)
    pub ordered : IsOrdered base s'.timers
    pub next : (s'.timers.timers sw_timer).ticks ≡ add32 (s.timers.timers sw_timer).ticks 1
    pub linked :
        (x : ℕ)
        → count x (nodes s'.timers.timer_list)
          ≡ count x (nodes s.timers.timer_list) + (if sw_timer == x then 1 else 0)
    pub others : (x : ℕ) → sw_timer ≢ x → s'.timers.timers x ≡ s.timers.timers x
    pub rings : Rung s s'
    pub calm : IsCalm s'.sync.base.kernel
    pub free : IsFree s'.sync.base.mutex

  abbrev later : Stopwatch → Stopwatch
  later s = record s {
    sw_ticks = add32 s.sw_ticks 1;
    messages = log s.messages (add32 s.sw_ticks 1);
  }

  -- The rest of `sw_count`.
  abbrev count_rest : ℕ → Stopwatch → Outcome Stopwatch
  count_rest sw_timer s = do
    s ← sw_notify sw_timer s
    (time, timers) ← timer_get_time s.timers sw_timer
    timers ← timer_schedule timers sw_timer (add32 time 1)
    ok (record s { timers = timers })

  logged :
      (s : Stopwatch) (m : Message) (b : Bool)
      → (if b then say s m else s)
        ≡ record s { messages = if b then s.messages ++ (m ∷ []) else s.messages }
  logged s m true = refl
  logged s m false = refl

  count_code : (sw_timer : ℕ) (s : Stopwatch) → sw_count sw_timer s ≡ count_rest sw_timer (later s)
  unfolding sw_count
  count_code sw_timer s =
      let s1 = record s { sw_ticks = add32 s.sw_ticks 1 } in
      ap (count_rest sw_timer) (logged s1 (ticks s1.sw_ticks) (s1.sw_ticks % 500 == 0))

  notify_no :
      (sw_timer : ℕ) (s : Stopwatch)
      → (s.sw_shell_waiting && timer_ticks_occurred s.sw_wait_ticks s.sw_ticks) ≡ false
      → sw_notify sw_timer s ≡ ok s
  unfolding sw_notify
  notify_no sw_timer s e =
      ap
        (λ b.
          if not b
          then ok s
          else (condvar_signal s.sync >>= λ sync.
              ok (record s { sw_shell_waiting = false; sync = sync })))
        e

  notify_yes :
      (sw_timer : ℕ) (s : Stopwatch) (sync : Condvar)
      → (s.sw_shell_waiting && timer_ticks_occurred s.sw_wait_ticks s.sw_ticks) ≡ true
      → condvar_signal s.sync ≡ ok sync
      → sw_notify sw_timer s ≡ ok (record s { sw_shell_waiting = false; sync = sync })
  unfolding sw_notify
  notify_yes sw_timer s sync e run =
      ap
        (λ b.
          if not b
          then ok s
          else (condvar_signal s.sync >>= λ sync.
              ok (record s { sw_shell_waiting = false; sync = sync })))
        e
      ∙ rw run refl

  -- From what `sw_notify` and the end of the section come to.
  run_code :
      (sw_timer : ℕ) (s : Stopwatch) (waiter : ℕ) (n : Stopwatch) (t' : Timers) (s' : Stopwatch)
      → IsCalm s.sync.base.kernel
      → IsFree s.sync.base.mutex
      → s.sw_timer_scheduled ≡ true
      → s.timers.locked ≡ false
      → sw_notify sw_timer (later (held s)) ≡ ok n
      → n.timers ≡ s.timers
      → timer_schedule
          (record s.timers { locked = false })
          sw_timer
          (add32 (s.timers.timers sw_timer).ticks 1)
        ≡ ok t'
      → sw_unlock (record n { timers = t' }) ≡ ok s'
      → sw_timer_run sw_timer s waiter ≡ ok s'
  unfolding sw_timer_run
  run_code sw_timer s waiter n t' s' c f on free notified same scheduled done =
      let body : sw_count sw_timer (held s) ≡ ok (record n { timers = t' }) =
        count_code sw_timer (held s)
        ∙ rw (notified, same, get_time_lem s.timers sw_timer free, scheduled) refl in
      rw (sw_lock_lem s waiter c f) (
        ap (λ b. (if not b then ok (held s) else sw_count sw_timer (held s)) >>= sw_unlock) on
        ∙ rw body done)

  -- The end of a call, once the timer is scheduled: the states in front of that, and at the end.
  record Ended (sw_timer : ℕ) (s : Stopwatch) (t' : Timers) : Type 0 where
    pub n : Stopwatch
    pub s' : Stopwatch
    pub notified : sw_notify sw_timer (later (held s)) ≡ ok n
    pub same : n.timers ≡ s.timers
    pub done : sw_unlock (record n { timers = t' }) ≡ ok s'
    pub timers : s'.timers ≡ t'
    pub counts : s'.sw_ticks ≡ add32 s.sw_ticks 1
    pub stays : s'.sw_timer_scheduled ≡ s.sw_timer_scheduled
    pub shown : s'.messages ≡ log s.messages (add32 s.sw_ticks 1)
    pub rings : Rung s s'
    pub calm : IsCalm s'.sync.base.kernel
    pub free : IsFree s'.sync.base.mutex

  -- The waiter's thread is woken up, and the mutex is free again.
  ring_lem :
      (sw_timer : ℕ) (s : Stopwatch) (w : ℕ) (t' : Timers)
      → IsCalm s.sync.base.kernel
      → IsFree s.sync.base.mutex
      → IsOrderly s.sync.base.kernel
      → (s.sync.base.kernel.threads s.sync.base.kernel.current).preempt_level < 4294967294
      → s.sync.base.kernel.nr_threads < 4294967295
      → due s ≡ true
      → IsWaiter s.sync w
      → Ended sw_timer s t'
  unfolding sw_unlock
  ring_lem sw_timer s w t' c f v lt few now i =
      let (k', run, r) =
        signal_quiet (held s).sync w i.first v lt c.calm few i.alive i.other i.busy i.low in
      let sync : Condvar = record (with_kernel (held s).sync k') {
        waiter_at = update s.sync.waiter_at w (record (s.sync.waiter_at w) { awaken = true });
      } in
      let n : Stopwatch = record (later (held s)) { sw_shell_waiting = false; sync = sync } in
      let same : k'.threads k'.current ≡ s.sync.base.kernel.threads s.sync.base.kernel.current =
        ap k'.threads r.same_current ∙ r.self in
      let c' : IsCalm k' = record {
        few = subst (λ d. d.preempt_level < 4294967295) (sym same) c.few;
        calm = ap (λ d. d.yield) same ∙ c.calm;
      } in
      let code = unlock_quiet sync.base c' (ap some (sym r.same_current)) refl f.alone in
      record {
        n = n;
        s' = record n {
          timers = t';
          sync = record sync { base = record sync.base { mutex = released sync.base } };
        };
        notified = notify_yes sw_timer (later (held s)) sync now run;
        same = refl;
        done = rw code refl;
        timers = refl;
        counts = refl;
        stays = refl;
        shown = refl;
        rings = rung w now i.first refl r refl;
        calm = c';
        free = record { owner = refl; unlocked = refl; alone = f.alone };
      }

  -- No one is woken up.
  quiet_lem :
      (sw_timer : ℕ) (s : Stopwatch) (t' : Timers)
      → IsCalm s.sync.base.kernel
      → IsFree s.sync.base.mutex
      → due s ≡ false
      → Ended sw_timer s t'
  quiet_lem sw_timer s t' c f later_on = record {
    n = later (held s);
    s' = record (later (held s)) { timers = t'; sync = s.sync };
    notified = notify_no sw_timer (later (held s)) later_on;
    same = refl;
    done = sw_unlock_lem s (record (later (held s)) { timers = t' }) c f refl;
    timers = refl;
    counts = refl;
    stays = refl;
    shown = refl;
    rings = silent later_on refl refl;
    calm = c;
    free = f;
  }

  -- In a run queue in order with fewer than 2^32 - 1 threads, `sw_timer_run` of a stopwatch
  -- that runs returns, for a thread with its preemption level two below the limit that was
  -- not told to yield and finds the mutex free without waiters, with timers in order that
  -- expire less than 2^31 ticks behind a common base, as the stopwatch's timer does a tick
  -- later, which is not linked; and if the deadline of the shell occurs with the tick, the
  -- thread of its waiter is alive, not current, not the idle one and of no higher priority.
  -- The stopwatch is a tick further, with a message every five seconds, its timer is linked
  -- once more and expires a tick later, the others stay as they are, the shell is woken up
  -- exactly if its deadline occurs, no switch takes place, and the mutex is free.
  pub run_lem :
      (base sw_timer : ℕ) (s : Stopwatch) (waiter : ℕ)
      → s.sw_timer_scheduled ≡ true
      → IsCalm s.sync.base.kernel
      → IsFree s.sync.base.mutex
      → IsOrderly s.sync.base.kernel
      → (s.sync.base.kernel.threads s.sync.base.kernel.current).preempt_level < 4294967294
      → s.sync.base.kernel.nr_threads < 4294967295
      → IsOrdered base s.timers
      → count sw_timer (nodes s.timers.timer_list) ≡ 0
      → sub32 (add32 (s.timers.timers sw_timer).ticks 1) base < 2147483648
      → (due s ≡ true → (w : ℕ) × IsWaiter s.sync w)
      → (s' : Stopwatch) × (sw_timer_run sw_timer s waiter ≡ ok s') × Counted base sw_timer s s'
  run_lem base sw_timer s waiter on c f v lt few ordered absent near waits =
      let time = add32 (s.timers.timers sw_timer).ticks 1 in
      let opened : record s.timers { locked = false } ≡ s.timers =
        ap (λ b. record s.timers { locked = b }) (sym ordered.unlocked) in
      let (t', scheduled, ordered', next, linked, others) =
        schedule-IsOrdered base s.timers sw_timer time ordered absent (omega arith) near in
      let scheduled' = ap (λ t. timer_schedule t sw_timer time) opened ∙ scheduled in
      let e : Ended sw_timer s t' = elim (Bool-cases (due s)) [
        | inl now ↦ let (w, i) = waits now in ring_lem sw_timer s w t' c f v lt few now i
        | inr later_on ↦ quiet_lem sw_timer s t' c f later_on
      ] in
      (
        e.s',
        run_code sw_timer s waiter e.n t' e.s' c f on ordered.unlocked e.notified e.same scheduled'
            e.done,
        record {
          counts = e.counts;
          scheduled = e.stays ∙ on;
          shown = e.shown;
          ordered = subst (IsOrdered base) (sym e.timers) ordered';
          next = ap (λ t. (t.timers sw_timer).ticks) e.timers ∙ next;
          linked = λ x. ap (λ t. count x (nodes t.timer_list)) e.timers ∙ linked x;
          others = λ x far. ap (λ t. t.timers x) e.timers ∙ others x far;
          rings = e.rings;
          calm = e.calm;
          free = e.free;
        },
      )
