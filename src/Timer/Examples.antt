-- ===== src/Timer/Examples.antt =====
-- The theorems on src/timer.c at two timers, the first of which expires before the counter wraps around.
use x.Base.{
  ℕ, ◌+◌, ◌≡◌, ◌≢◌, ◌<◌, refl, sym, ap, ◌∙◌, subst, ◌⊎◌, inl, inr, length, List, true, false, some,
  [], ◌∷◌, ◌==◌, if◌then◌else◌, arith, count,
}
use x.Base.Outcome.{Outcome, ok}
use x.LinkedList.{sequences, is_nil, first?}
use x.Timer.{
  Timers, timer_ticks_expired, timer_ticks_occurred, timer_schedule, timer_process_list, lock,
  unlock, find_place, timer_expired,
}
use x.Timer.Order.{IsOrdered, schedule-IsOrdered}
use x.Timer.Process.{due, removed, Defers, Ran, process_list_lem}

abbrev two : Timers
two = record {
  timers = λ t. record { ticks = if t == 5 then 4294967295 else 20; fn = 0; arg = t };
  timer_ticks = 4294967290;
  timer_list_empty = false;
  timer_wakeup_ticks = 4294967295;
  timer_list = 5 ∷ 6 ∷ [];
  timer_thread = some 3;
  locked = false;
}

first-same : (x : ℕ) → some 5 ≡ some x → 5 ≡ x
first-same x e = cc

two-IsOrdered : IsOrdered 4294967290 two
two-IsOrdered = record {
  word = omega arith;
  near = λ x c. ground arith;
  sorted = ((omega arith, tt), (tt, tt));
  once = λ x. ground arith;
  unlocked = refl;
  empty = refl;
  wakeup = λ x e. let same : 5 ≡ x = first-same x e in ground (arith, same);
}

schedule-IsOrdered_example :
    (t' : Timers) × (timer_schedule two 7 10 ≡ ok t')
    × IsOrdered 4294967290 t'
    × ((t'.timers 7).ticks ≡ 10)
    × ((x : ℕ) → count x t'.timer_list ≡ count x (5 ∷ 6 ∷ []) + (if 7 == x then 1 else 0))
    × ((x : ℕ) → 7 ≢ x → t'.timers x ≡ two.timers x)
schedule-IsOrdered_example =
    schedule-IsOrdered 4294967290 two 7 10 two-IsOrdered refl (omega arith) (omega arith)

-- A timer function that schedules its timer once more, as that of the stopwatch does.
abbrev again : ℕ → ℕ → Timers → Outcome Timers
again fn arg t = timer_schedule t arg 105

-- Timer 5 is due, or was called; timer 6 is not due at 5.
abbrev Halfway : Timers → Type 0
Halfway t =
    (t ≡ record two { locked = true }) ⊎ ((t.timer_list ≡ 6 ∷ 5 ∷ []) × ((t.timers 6).ticks ≡ 20))

second-same : (l : List ℕ) (x : ℕ) → l ≡ 6 ∷ 5 ∷ [] → first? l ≡ some x → 6 ≡ x
second-same l x e f = some-same (sym (ap first? e) ∙ f)
  where
    some-same : {x : ℕ} → some 6 ≡ some x → 6 ≡ x
    some-same e = cc

later : timer_ticks_occurred 20 5 ≡ false
unfolding timer_ticks_occurred timer_ticks_expired
later = refl

again-first :
    (t' : Timers) × (again 0 5 (removed (record two { locked = true }) 5) ≡ ok t')
    × (t'.locked ≡ false)
    × Halfway (record t' { locked = true })
    × (due 5 (record two { locked = true }) ≡ 5 ∷ due 5 t')
unfolding timer_schedule timer_ticks_occurred timer_ticks_expired lock unlock find_place
    timer_expired
again-first = (_, refl, refl, inr (refl, refl), refl)

again-Defers : Defers Halfway again 5
again-Defers x t (inl start) first occurred =
    let same : 5 ≡ x =
      first-same x (sym (ap (λ (t : Timers). first? t.timer_list) start) ∙ first) in
    subst
      (λ t.
        (t' : Timers) × (again (t.timers x).fn (t.timers x).arg (removed t x) ≡ ok t')
        × (t'.locked ≡ false)
        × Halfway (record t' { locked = true })
        × (due 5 t ≡ x ∷ due 5 t'))
      (sym start)
      (subst
        (λ x.
          (t' : Timers) × (again 0 x (removed (record two { locked = true }) x) ≡ ok t')
          × (t'.locked ≡ false)
          × Halfway (record t' { locked = true })
          × (due 5 (record two { locked = true }) ≡ x ∷ due 5 t'))
        same again-first)
again-Defers x t (inr (list, ticks)) first occurred =
    let same : 6 ≡ x = second-same t.timer_list x list first in
    absurd (
      true_ne_false (
        sym (subst (λ x. timer_ticks_occurred (t.timers x).ticks 5 ≡ true) (sym same) occurred)
        ∙ ap (λ n. timer_ticks_occurred n 5) ticks
        ∙ later))
  where
    true_ne_false : true ≢ false
    true_ne_false e = cc

only_first : due 5 two ≡ 5 ∷ []
unfolding timer_ticks_occurred timer_ticks_expired
only_first = refl

process_list_lem_example :
    (t1 t' : Timers) × (timer_process_list 2 again 5 two ≡ ok t')
    × Ran again 5 (due 5 two) (record two { locked = true }) t1
    × (t' ≡ record t1 {
      timer_list_empty = t'.timer_list_empty;
      timer_wakeup_ticks = t'.timer_wakeup_ticks;
      locked = false;
    })
    × (due 5 t' ≡ [])
    × (t'.timer_list_empty ≡ is_nil t'.timer_list)
    × ((x : ℕ) → first? t'.timer_list ≡ some x → t'.timer_wakeup_ticks ≡ (t'.timers x).ticks)
process_list_lem_example =
    process_list_lem 2 Halfway again 5 two again-Defers (inl refl)
      (subst (λ l. length l < 2) (sym only_first) (omega arith)) refl
