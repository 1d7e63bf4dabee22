-- ===== src/Timer/Process.antt =====
-- `timer_process_list` of src/timer.c: it calls the functions of the timers that have occurred.
use x.Base.{
  ℕ, zero, suc, ◌<◌, ◌≡◌, refl, ap, sym, ◌∙◌, true, false, none, some, List, [], ◌∷◌, if◌then◌else◌,
  arith, length, Bool-cases, Option-cases, inl, inr,
}
use x.Base.Outcome.{Outcome, ok}
use x.LinkedList.{LinkedList, is_nil, first?}
use x.Timer.{
  Timer, Timers, timer_ticks_occurred, timer_occurred, timer_process, process_loop, update_wakeup,
  timer_process_list, lock, unlock,
}

-- The timers of a list in front of the first that has not occurred at `now`.
abbrev pub expired : (ℕ → Timer) → ℕ → List ℕ → List ℕ
expired timers now [] = []
expired timers now (x ∷ xs) =
    let rest = expired timers now xs in
    if timer_ticks_occurred (timers x).ticks now then x ∷ rest else []

some-injective : {x y : ℕ} → some x ≡ some y → x ≡ y
some-injective e = cc

due_first :
    (timers : ℕ → Timer) (now : ℕ) (l : List ℕ) (x : ℕ) (xs : List ℕ)
    → expired timers now l ≡ x ∷ xs
    → (first? l ≡ some x) × (timer_ticks_occurred (timers x).ticks now ≡ true)
due_first timers now [] x xs e = cc
due_first timers now (y ∷ l) x xs e =
    elim (Bool-cases (timer_ticks_occurred (timers y).ticks now)) [
      | inl occurred ↦
          let rest = expired timers now l in
          let same : y ≡ x = head_eq (sym (ap (λ b. if b then y ∷ rest else []) occurred) ∙ e) in
          (ap some same, ap (λ x. timer_ticks_occurred (timers x).ticks now) (sym same) ∙ occurred)
      | inr later ↦
          let rest = expired timers now l in
          absurd (nil_ne_cons (sym (ap (λ b. if b then y ∷ rest else []) later) ∙ e))
    ]
  where
    head_eq : {a b : ℕ} {l r : List ℕ} → (a ∷ l) ≡ (b ∷ r) → a ≡ b
    head_eq e = cc

    nil_ne_cons : {b : ℕ} {bs : List ℕ} → [] ≡ (b ∷ bs) → ⊥
    nil_ne_cons e = cc

due_none :
    (timers : ℕ → Timer) (now : ℕ) (l : List ℕ) (x : ℕ)
    → first? l ≡ some x
    → expired timers now l ≡ []
    → timer_ticks_occurred (timers x).ticks now ≡ false
due_none timers now [] x first e = cc
due_none timers now (y ∷ l) x first e =
    elim (Bool-cases (timer_ticks_occurred (timers y).ticks now)) [
      | inl occurred ↦
          let rest = expired timers now l in
          absurd (cons_ne_nil (sym (ap (λ b. if b then y ∷ rest else []) occurred) ∙ e))
      | inr later ↦
          ap (λ x. timer_ticks_occurred (timers x).ticks now) (some-injective (sym first)) ∙ later
    ]
  where
    cons_ne_nil : {b : ℕ} {bs : List ℕ} → (b ∷ bs) ≡ [] → ⊥
    cons_ne_nil e = cc

tail_eq : {a : ℕ} {l r : List ℕ} → (a ∷ l) ≡ (a ∷ r) → l ≡ r
tail_eq e = cc

none-some : {x : ℕ} → (none ≡ some x) → ⊥
none-some e = cc

module _ ⦃lib : LinkedList⦄ where
  open lib use {nodes, list_first, list_remove, nodes-remove, first-nodes, empty-nodes}

  -- The timers at the front of the list that have occurred at `now`, and the state in which the first of
  -- them is processed.
  abbrev pub due : ℕ → Timers → List ℕ
  due now t = expired t.timers now (nodes t.timer_list)

  abbrev pub removed : Timers → ℕ → Timers
  removed t x = record t { timer_list = list_remove t.timer_list x; locked = false }

  -- The functions of the timers return with the mutex free, and may schedule timers, where those do not
  -- come before the ones that are due; `P` is what holds of the timers between two calls.
  abbrev pub Defers : (Timers → Type 0) → (ℕ → ℕ → Timers → Outcome Timers) → ℕ → Type 0
  Defers P call now =
      (x : ℕ) (t : Timers)
      → P t
      → first? (nodes t.timer_list) ≡ some x
      → timer_ticks_occurred (t.timers x).ticks now ≡ true
      → (t' : Timers) × (call (t.timers x).fn (t.timers x).arg (removed t x) ≡ ok t')
        × (t'.locked ≡ false)
        × P (record t' { locked = true })
        × (due now t ≡ x ∷ due now t')

  -- A run through the list: the function of the first timer is called with its argument, the timer being
  -- off the list and the mutex free, if the timer has occurred; else the run ends.
  pub data Ran (call : ℕ → ℕ → Timers → Outcome Timers) (now : ℕ)
      : List ℕ → Timers → Timers → Type 0 where
    rests : {t : Timers} → due now t ≡ [] → Ran call now [] t t
    calls :
        {x : ℕ} {xs : List ℕ} {t t1 t' : Timers}
        → first? (nodes t.timer_list) ≡ some x
        → call (t.timers x).fn (t.timers x).arg (removed t x) ≡ ok t1
        → Ran call now xs (record t1 { locked = true }) t'
        → Ran call now (x ∷ xs) t t'

  process_turn :
      (fuel : ℕ) (call : ℕ → ℕ → Timers → Outcome Timers) (now x : ℕ) (t t1 : Timers)
      → list_first t.timer_list ≡ some x
      → timer_ticks_occurred (t.timers x).ticks now ≡ true
      → t.locked ≡ true
      → call (t.timers x).fn (t.timers x).arg (removed t x) ≡ ok t1
      → t1.locked ≡ false
      → process_loop (suc fuel) call now t
        ≡ process_loop fuel call now (record t1 { locked = true })
  unfolding process_loop lock unlock timer_process timer_occurred
  process_turn fuel call now x t t1 first occurred held code free =
      rw (first, occurred, held, code, free, process_loop)

  process_rests :
      (fuel : ℕ) (call : ℕ → ℕ → Timers → Outcome Timers) (now : ℕ) (t : Timers)
      → due now t ≡ []
      → process_loop (suc fuel) call now t ≡ ok t
  unfolding process_loop timer_occurred
  process_rests fuel call now t e = elim (Option-cases (list_first t.timer_list)) [
    | inl nobody ↦ rw (nobody, process_loop)
    | inr (x, here) ↦
        let later =
          due_none t.timers now (nodes t.timer_list) x (sym (first-nodes t.timer_list) ∙ here) e in
        rw (here, later, process_loop)
  ]

  process_loop_lem :
      (fuel : ℕ) (P : Timers → Type 0) (call : ℕ → ℕ → Timers → Outcome Timers) (now : ℕ)
      (xs : List ℕ) (t : Timers)
      → Defers P call now
      → P t
      → due now t ≡ xs
      → length xs < fuel
      → t.locked ≡ true
      → (t' : Timers) × (process_loop fuel call now t ≡ ok t')
        × Ran call now xs t t'
        × P t'
        × (t'.locked ≡ true)
        × (due now t' ≡ [])
  process_loop_lem zero P call now xs t defers p e lt held = absurd (omega arith)
  process_loop_lem (suc fuel) P call now [] t defers p e lt held =
      (t, process_rests fuel call now t e, rests e, p, held, e)
  process_loop_lem (suc fuel) P call now (x ∷ xs) t defers p e lt held =
      let (first, occurred) = due_first t.timers now (nodes t.timer_list) x xs e in
      let (t1, code, free, p1, less) = defers x t p first occurred in
      let (t', run, ran, p', held', none') =
        process_loop_lem fuel P call now xs (record t1 { locked = true }) defers p1
          (tail_eq (sym less ∙ e)) (omega arith) refl in
      (
        t',
        process_turn fuel call now x t t1 (first-nodes t.timer_list ∙ first) occurred held code free
            ∙ run,
        calls first code ran,
        p',
        held',
        none',
      )

  update_wakeup_lem :
      (t : Timers)
      → ((update_wakeup t).timer_list_empty ≡ is_nil (nodes t.timer_list))
        × ((x : ℕ)
            → first? (nodes t.timer_list) ≡ some x
            → (update_wakeup t).timer_wakeup_ticks ≡ (t.timers x).ticks)
        × (update_wakeup t ≡ record t {
          timer_list_empty = (update_wakeup t).timer_list_empty;
          timer_wakeup_ticks = (update_wakeup t).timer_wakeup_ticks;
        })
  unfolding update_wakeup
  update_wakeup_lem t = elim (Option-cases (list_first t.timer_list)) [
    | inl nobody ↦
        rw (nobody, update_wakeup)
          (
            empty-nodes t.timer_list,
            λ x e. absurd (
                let clash : none ≡ some x = sym nobody ∙ first-nodes t.timer_list ∙ e in
                none-some clash),
            refl,
          )
    | inr (y, here) ↦
        rw (here, update_wakeup)
          (
            empty-nodes t.timer_list,
            λ x e.
                let same : some y ≡ some x = sym here ∙ first-nodes t.timer_list ∙ e in
                ap (λ z. (t.timers z).ticks) (some-injective same),
            refl,
          )
  ]

  -- With timer functions that keep a condition on the timers, return with the mutex free and
  -- schedule timers, if at all, behind those that are due, and fuel for these,
  -- `timer_process_list` returns. It has called the functions of the timers that were due,
  -- each with its argument, in the order of the list, and of no others, with the timer off
  -- the list and the mutex free; the list then does not begin with a timer that has occurred,
  -- the flag and the time to wake up are those of that list, and the mutex is free.
  pub process_list_lem :
      (fuel : ℕ) (P : Timers → Type 0) (call : ℕ → ℕ → Timers → Outcome Timers) (now : ℕ)
      (t : Timers)
      → Defers P call now
      → P (record t { locked = true })
      → length (due now t) < fuel
      → t.locked ≡ false
      → (t1 t' : Timers) × (timer_process_list fuel call now t ≡ ok t')
        × Ran call now (due now t) (record t { locked = true }) t1
        × (t' ≡ record t1 {
          timer_list_empty = t'.timer_list_empty;
          timer_wakeup_ticks = t'.timer_wakeup_ticks;
          locked = false;
        })
        × (due now t' ≡ [])
        × (t'.timer_list_empty ≡ is_nil (nodes t'.timer_list))
        × ((x : ℕ)
            → first? (nodes t'.timer_list) ≡ some x
            → t'.timer_wakeup_ticks ≡ (t'.timers x).ticks)
  unfolding timer_process_list lock unlock
  process_list_lem fuel P call now t defers p lt free =
      let (t1, code, ran, p1, held, done) =
        process_loop_lem fuel P call now (due now t) (record t { locked = true }) defers p refl lt
          refl in
      let (empty, wakeup, same) = update_wakeup_lem t1 in
      let held2 : (update_wakeup t1).locked ≡ true = ap (λ t. t.locked) same ∙ held in
      let t' : Timers = record (update_wakeup t1) { locked = false } in
      (
        t1,
        t',
        rw (free, code, held2),
        ran,
        ap (λ (t : Timers). record t { locked = false }) same,
        ap (due now) same ∙ done,
        empty ∙ ap (λ t. is_nil (nodes t.timer_list)) (sym same),
        λ x e.
            wakeup x (ap (λ t. first? (nodes t.timer_list)) (sym same) ∙ e)
            ∙ ap (λ t. (t.timers x).ticks) (sym same),
      )
