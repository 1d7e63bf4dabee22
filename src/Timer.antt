-- ===== src/Timer.antt =====
-- src/timer.c: timers on a list in the order of their ticks. A timer is named by its address; the call
-- of a timer's function is a parameter.
pub mod Ticks
pub mod Order
pub mod Process
pub mod Setup
mod Examples
use x.Base.{
  ℕ, zero, suc, ◌+◌, ◌-◌, Bool, true, false, not, ◌&&◌, ◌||◌, Option, none, some, List, [], ◌∷◌,
  ltb, ◌==◌, if◌then◌else◌, update,
}
use x.Base.Word.{add32, sub32}
use x.Base.Outcome.{Outcome, ok, panic, blocked, undefined, ◌>>=◌, ◌>>◌, assert}
use x.LinkedList.{LinkedList}
use x.Cpu.Flags.{cpu_intr_enabled}
use x.Thread.State.{Kernel}
use x.Thread.Sched.{thread_sleep, thread_wakeup}

abbrev pub timer_threshold : ℕ
timer_threshold = 2147483647

pub timer_ticks_expired : ℕ → ℕ → Bool
timer_ticks_expired ticks ref = ltb timer_threshold (sub32 ticks ref)

pub timer_ticks_occurred : ℕ → ℕ → Bool
timer_ticks_occurred ticks ref = ticks == ref || timer_ticks_expired ticks ref

-- `struct timer`: the function and its argument are words.
pub record Timer : Type 0 where
  pub ticks : ℕ
  pub fn : ℕ
  pub arg : ℕ

module _ ⦃lib : LinkedList⦄ where
  open lib use {Head, list_insert_before, list_remove, list_empty, list_first, nodes}

  -- The static variables of the file, the timers by address, and whether `timer_mutex` is held.
  pub record Timers : Type 0 where
    pub timers : ℕ → Timer
    pub timer_ticks : ℕ
    pub timer_list_empty : Bool
    pub timer_wakeup_ticks : ℕ
    pub timer_list : Head
    pub timer_thread : Option ℕ
    pub locked : Bool

  pub lock : Timers → Outcome Timers
  lock t = if t.locked then blocked else ok (record t { locked = true })

  pub unlock : Timers → Outcome Timers
  unlock t = if t.locked then ok (record t { locked = false }) else panic

  unfoldable pub timer_work_pending : Kernel → Timers → Outcome Bool
  timer_work_pending k t = do
    assert (not (cpu_intr_enabled k.eflags))
    ok (not t.timer_list_empty && timer_ticks_occurred t.timer_wakeup_ticks t.timer_ticks)

  pub timer_expired : Timers → ℕ → ℕ → Bool
  timer_expired t timer ref = timer_ticks_expired (t.timers timer).ticks ref

  pub timer_occurred : Timers → ℕ → ℕ → Bool
  timer_occurred t timer ref = timer_ticks_occurred (t.timers timer).ticks ref

  pub timer_process : (ℕ → ℕ → Timers → Outcome Timers) → Timers → ℕ → Outcome Timers
  timer_process call t timer = call (t.timers timer).fn (t.timers timer).arg t

  -- The loop over the timers that have occurred. It runs on fuel, and is undefined where that is used
  -- up.
  pub process_loop : ℕ → (ℕ → ℕ → Timers → Outcome Timers) → ℕ → Timers → Outcome Timers
  process_loop zero call now t = undefined
  process_loop (suc fuel) call now t = elim (list_first t.timer_list) [
    | none ↦ ok t
    | some timer ↦ elim (timer_occurred t timer now) [
      | false ↦ ok t
      | true ↦ do
        t ← unlock (record t { timer_list = list_remove t.timer_list timer })
        t ← timer_process call t timer
        t ← lock t
        process_loop fuel call now t
    ]
  ]

  pub update_wakeup : Timers → Timers
  update_wakeup t =
      let t' = record t { timer_list_empty = list_empty t.timer_list } in
      elim (list_first t.timer_list) [
        | none ↦ t'
        | some timer ↦ record t' { timer_wakeup_ticks = (t.timers timer).ticks }
      ]

  pub timer_process_list : ℕ → (ℕ → ℕ → Timers → Outcome Timers) → ℕ → Timers → Outcome Timers
  timer_process_list fuel call now t = do
    t ← lock t
    t ← process_loop fuel call now t
    unlock (update_wakeup t)

  -- One turn of the inner loop of `timer_run`, with interrupts off: the time at which it ends, or
  -- `none` once the thread sleeps.
  pub timer_run_turn : Kernel → Timers → Outcome (Option ℕ × Kernel)
  timer_run_turn k t = do
    let now = t.timer_ticks
    pending ← timer_work_pending k t
    if pending then ok (some now, k) else do k ← thread_sleep k; ok (none, k)

  unfoldable pub timer_now : Timers → ℕ
  timer_now t = t.timer_ticks

  pub timer_init : Timers → ℕ → ℕ → ℕ → Timers
  timer_init t timer fn arg = record t {
    timers = update t.timers timer (record (t.timers timer) { fn = fn; arg = arg });
  }

  pub timer_get_time : Timers → ℕ → Outcome (ℕ × Timers)
  timer_get_time t timer = do
    t ← lock t
    let ticks = (t.timers timer).ticks
    t ← unlock t
    ok (ticks, t)

  -- Where the loop of `timer_schedule` stops; `none` is the head of the list.
  pub find_place : Timers → ℕ → List ℕ → Option ℕ
  find_place t ticks [] = none
  find_place t ticks (tmp ∷ rest) =
      let later = find_place t ticks rest in if timer_expired t tmp ticks then later else some tmp

  pub timer_schedule : Timers → ℕ → ℕ → Outcome Timers
  timer_schedule t timer ticks = do
    t ← lock t
    let t' = record t { timers = update t.timers timer (record (t.timers timer) { ticks = ticks }) }
    let place = find_place t' ticks (nodes t'.timer_list)
    let list = list_insert_before t'.timer_list place timer
    first ← elim (list_first list) [ none ↦ undefined | some first ↦ ok first ]
    unlock (record t' {
      timer_list = list;
      timer_list_empty = false;
      timer_wakeup_ticks = (t'.timers first).ticks;
    })

  unfoldable pub timer_report_tick : Kernel → Timers → Outcome (Kernel × Timers)
  timer_report_tick k t = do
    let t' = record t { timer_ticks = add32 t.timer_ticks 1 }
    pending ← timer_work_pending k t'
    k ← if pending then thread_wakeup k t'.timer_thread else ok k
    ok (k, t')
