-- ===== src/Mutex/Trace.antt =====
-- Runs of threads that use a mutex of src/mutex.c, and the scheduler.
use x.Base.{
  ℕ, ◌<◌, ◌≡◌, ◌≢◌, refl, ap, sym, ◌∙◌, subst, Bool-cases, inl, inr, false, not, some, List, [],
  ◌∷◌, ◌++◌, count, erase, ◌==◌, if◌then◌else◌,
}
use x.Base.Outcome.{Outcome, ok}
use x.LinkedList.{LinkedList, first?}
use x.Thread.State.{Kernel, running, in_code, thread_is_running}
use x.Thread.Sched.{thread_resume}
use x.Thread.Park.{presence}
use x.Thread.System.{IsLoaded}
use x.Thread.Resume.{resume_lem}
use x.Thread.Trace.{Step-Kept, Continued-Kept}
use x.Thread.Trace
use x.Mutex.{MutexState, error_busy, mutex_lock, mutex_lock_turn, mutex_trylock, mutex_unlock}
use x.Mutex.Own.{IsMutex, moved-IsWaiting, owner_of_held, first-count}
use x.Mutex.Calls.{gained, lock_lem, Continued-IsMutex}
use x.Mutex.Turn.{turn_lem, trylock_lem}
use x.Mutex.Unlock.{unlock_lem}

module _ ⦃lib : LinkedList⦄ where
  open lib use {nodes}

  -- The waiters of the calls of `mutex_lock` that did not return, in the order of the calls, do not
  -- belong to the current thread.
  abbrev pub IsAwake : MutexState → List ℕ → Type 0
  IsAwake s inside = (w : ℕ) → 0 < count w inside → s.waiter_threads w ≢ s.kernel.current

  -- A call of `mutex_lock`, up to a switch, returns or puts its thread to sleep: what that makes of the
  -- threads that hold the mutex, of the waiters of the calls that did not return, and of the same after
  -- a turn of the loop.
  abbrev pub took : MutexState → MutexState → List ℕ → List ℕ
  took s s' held =
      if thread_is_running s'.kernel s.kernel.current then s.kernel.current ∷ held else held

  abbrev pub entered : MutexState → MutexState → ℕ → List ℕ → List ℕ
  entered s s' w inside =
      if thread_is_running s'.kernel s.kernel.current then inside else inside ++ (w ∷ [])

  abbrev pub left : MutexState → MutexState → ℕ → List ℕ → List ℕ
  left s s' w inside =
      if thread_is_running s'.kernel s.kernel.current then erase w inside else inside

  -- The current thread makes a call of the mutex or of the scheduler, or goes on where it was loaded;
  -- with the threads whose calls took the mutex and that did not unlock it, and the waiters of the calls
  -- of `mutex_lock` that did not return.
  pub data MutexStep (s : MutexState) (held inside : List ℕ)
      : MutexState → List ℕ → List ℕ → Type 0 where
    locks :
        {s' : MutexState} (w : ℕ)
        → (s.kernel.threads s.kernel.current).point ≡ in_code
        → (s.kernel.threads s.kernel.current).preempt_level ≡ 0
        → s.kernel.current ≢ s.kernel.idle
        → count w inside ≡ 0
        → IsAwake s inside
        → mutex_lock s w ≡ ok s'
        → MutexStep s held inside s' (took s s' held) (entered s s' w inside)
    turns :
        {s' : MutexState} (w : ℕ)
        → (s.kernel.threads s.kernel.current).point ≡ in_code
        → (s.kernel.threads s.kernel.current).preempt_level ≡ 1
        → s.kernel.current ≢ s.kernel.idle
        → 0 < count w inside
        → s.waiter_threads w ≡ s.kernel.current
        → mutex_lock_turn s w s.kernel.current ≡ ok s'
        → MutexStep s held inside s' (took s s' held) (left s s' w inside)
    trylocks :
        {error : ℕ} {s' : MutexState}
        → (s.kernel.threads s.kernel.current).point ≡ in_code
        → (s.kernel.threads s.kernel.current).preempt_level < 4294967295
        → IsAwake s inside
        → mutex_trylock s ≡ ok (error, s')
        → MutexStep s held inside s' (if error == 0 then s.kernel.current ∷ held else held) inside
    unlocks :
        {s' : MutexState}
        → (s.kernel.threads s.kernel.current).point ≡ in_code
        → (s.kernel.threads s.kernel.current).preempt_level < 4294967294
        → s.kernel.nr_threads < 4294967295
        → 0 < count s.kernel.current held
        → IsAwake s inside
        → mutex_unlock s ≡ ok s'
        → MutexStep s held inside s' (erase s.kernel.current held) inside
    others :
        {k' : Kernel}
        → IsAwake s inside
        → Trace.Step s.kernel k'
        → MutexStep s held inside (record s { kernel = k' }) held inside
    resumes :
        {k' : Kernel}
        → IsLoaded s.kernel
        → thread_resume s.kernel ≡ ok k'
        → MutexStep s held inside (record s { kernel = k' }) held inside

  pub data MutexReach (s : MutexState) (held inside : List ℕ)
      : MutexState → List ℕ → List ℕ → Type 0 where
    start : MutexReach s held inside s held inside
    more :
        {s1 s2 : MutexState} {held1 held2 inside1 inside2 : List ℕ}
        → MutexReach s held inside s1 held1 inside1
        → MutexStep s1 held1 inside1 s2 held2 inside2
        → MutexReach s held inside s2 held2 inside2

  -- The mutex in order, with the waiters of the calls that did not return in its queue.
  pub record IsUsed (s : MutexState) (held inside : List ℕ) : Type 0 where
    pub base : IsMutex s held
    pub queue : nodes s.mutex.waiters ≡ inside

  -- A call returns one state only.
  only :
      {A : Type 0} {a a1 : A} {m : Outcome A} (P : A → Type 0) → m ≡ ok a → m ≡ ok a1 → P a1 → P a
  only {A} {a} {a1} P e e1 p = subst P (go (sym e1 ∙ e)) p
    where
      go : ok a1 ≡ ok a → a1 ≡ a
      go e = cc

  took_lem :
      (s s' : MutexState) (held : List ℕ)
      → thread_is_running s'.kernel s.kernel.current ≡ not s.mutex.locked
      → took s s' held ≡ gained s held
  took_lem s s' held ran = elim (Bool-cases s.mutex.locked) [
    | inl on ↦ rw (ran, on) refl
    | inr off ↦ rw (ran, off) refl
  ]

  entered_lem :
      (s s' : MutexState) (w : ℕ) (inside : List ℕ)
      → thread_is_running s'.kernel s.kernel.current ≡ not s.mutex.locked
      → (if s.mutex.locked then inside ++ (w ∷ []) else inside) ≡ entered s s' w inside
  entered_lem s s' w inside ran = elim (Bool-cases s.mutex.locked) [
    | inl on ↦ rw (ran, on) refl
    | inr off ↦ rw (ran, off) refl
  ]

  left_lem :
      (s s' : MutexState) (w : ℕ) (inside : List ℕ)
      → thread_is_running s'.kernel s.kernel.current ≡ not s.mutex.locked
      → (if s.mutex.locked then inside else erase w inside) ≡ left s s' w inside
  left_lem s s' w inside ran = elim (Bool-cases s.mutex.locked) [
    | inl on ↦ rw (ran, on) refl
    | inr off ↦ rw (ran, off) refl
  ]

  error_lem :
      (s : MutexState) (held : List ℕ)
      → (if (if s.mutex.locked then error_busy else 0) == 0 then s.kernel.current ∷ held else held)
        ≡ gained s held
  error_lem s held = elim (Bool-cases s.mutex.locked) [
    | inl on ↦ rw on refl
    | inr off ↦ rw off refl
  ]

  -- Calls of `mutex_lock` have their waiters in the queue, until they return.
  pub locks-IsUsed :
      {s s' : MutexState} {held : List ℕ} (w : ℕ)
      → IsMutex s held
      → (s.kernel.threads s.kernel.current).point ≡ in_code
      → (s.kernel.threads s.kernel.current).preempt_level ≡ 0
      → s.kernel.current ≢ s.kernel.idle
      → count w (nodes s.mutex.waiters) ≡ 0
      → mutex_lock s w ≡ ok s'
      → IsUsed s' (took s s' held) (entered s s' w (nodes s.mutex.waiters))
  locks-IsUsed {s} {s'} {held} w v code level busy fresh run =
      let (s1, run1, after, ran, queue) = lock_lem s w held v code level busy fresh in
      only (λ s'. IsUsed s' (took s s' held) (entered s s' w (nodes s.mutex.waiters))) run run1
        (record {
          base = subst (IsMutex s1) (sym (took_lem s s1 held ran)) after;
          queue = queue ∙ entered_lem s s1 w (nodes s.mutex.waiters) ran;
        })

  turns-IsUsed :
      {s s' : MutexState} {held : List ℕ} (w : ℕ)
      → IsMutex s held
      → (s.kernel.threads s.kernel.current).point ≡ in_code
      → (s.kernel.threads s.kernel.current).preempt_level ≡ 1
      → s.kernel.current ≢ s.kernel.idle
      → 0 < count w (nodes s.mutex.waiters)
      → mutex_lock_turn s w s.kernel.current ≡ ok s'
      → IsUsed s' (took s s' held) (left s s' w (nodes s.mutex.waiters))
  turns-IsUsed {s} {s'} {held} w v code level busy there run =
      let (s1, run1, after, ran, queue) = turn_lem s w held v code level busy there in
      only (λ s'. IsUsed s' (took s s' held) (left s s' w (nodes s.mutex.waiters))) run run1
        (record {
          base = subst (IsMutex s1) (sym (took_lem s s1 held ran)) after;
          queue = queue ∙ left_lem s s1 w (nodes s.mutex.waiters) ran;
        })

  trylocks-IsUsed :
      {s s' : MutexState} {held : List ℕ} {error : ℕ}
      → IsMutex s held
      → (s.kernel.threads s.kernel.current).point ≡ in_code
      → (s.kernel.threads s.kernel.current).preempt_level < 4294967295
      → mutex_trylock s ≡ ok (error, s')
      → IsUsed s' (if error == 0 then s.kernel.current ∷ held else held) (nodes s.mutex.waiters)
  trylocks-IsUsed {s} {s'} {held} v code lt run =
      let (s1, run1, after, busy, same) = trylock_lem s held v code lt in
      only
        (λ r.
          IsUsed r.1 (if r.0 == 0 then s.kernel.current ∷ held else held) (nodes s.mutex.waiters))
        run run1 (record { base = subst (IsMutex s1) (sym (error_lem s held)) after; queue = same })

  MutexStep-IsUsed :
      {s s' : MutexState} {held held' inside inside' : List ℕ}
      → IsUsed s held inside
      → MutexStep s held inside s' held' inside'
      → IsUsed s' held' inside'
  MutexStep-IsUsed {s} {s'} {held} v (locks w code level busy fresh awake run) =
      subst (λ inside. IsUsed s' (took s s' held) (entered s s' w inside)) v.queue
        (locks-IsUsed w v.base code level busy (ap (count w) v.queue ∙ fresh) run)
  MutexStep-IsUsed {s} {s'} {held} v (turns w code level busy there mine run) =
      subst (λ inside. IsUsed s' (took s s' held) (left s s' w inside)) v.queue
        (turns-IsUsed w v.base code level busy (subst (λ xs. 0 < count w xs) (sym v.queue) there)
          run)
  MutexStep-IsUsed {s} {s'} {held} v (trylocks {error} code lt awake run) =
      subst (IsUsed s' (if error == 0 then s.kernel.current ∷ held else held)) v.queue
        (trylocks-IsUsed v.base code lt run)
  MutexStep-IsUsed {s} {s'} {held} {held'} {inside} v (unlocks code lt few mine awake run) =
      let (s1, run1, after, same, woken) = unlock_lem s held v.base code lt few mine (
        subst (λ xs. (w : ℕ) → 0 < count w xs → s.waiter_threads w ≢ s.kernel.current) (sym v.queue)
          awake) in
      only (λ s'. IsUsed s' (erase s.kernel.current held) inside) run run1
        (record { base = after; queue = ap (λ m. nodes m.waiters) same ∙ v.queue })
  MutexStep-IsUsed {s} {s'} {held} v (others {k'} awake step) =
      let kept = Step-Kept v.base.system step in
      record {
        base = record {
          system = kept.system;
          exclusive = v.base.exclusive;
          flag = v.base.flag;
          waiting =
              moved-IsWaiting s.kernel k' (nodes s.mutex.waiters) s.waiter_threads s.mutex.locked
                kept.same_idle
                (λ w there.
                  kept.moves (s.waiter_threads w)
                    (awake w (subst (λ xs. 0 < count w xs) v.queue there)))
                v.base.waiting;
        };
        queue = v.queue;
      }
  MutexStep-IsUsed {s} {s'} {held} {held'} {inside} v (resumes {k'} loaded run) =
      let (k1, run1, c, back) = resume_lem s.kernel v.base.system loaded in
      only (λ k. IsUsed (record s { kernel = k }) held inside) run run1
        (record { base = Continued-IsMutex s held k1 c v.base; queue = v.queue })

  pub MutexReach-IsUsed :
      {s : MutexState} {held inside : List ℕ} {s' : MutexState} {held' inside' : List ℕ}
      → IsUsed s held inside
      → MutexReach s held inside s' held' inside'
      → IsUsed s' held' inside'
  MutexReach-IsUsed v start = v
  MutexReach-IsUsed v (more reach step) = MutexStep-IsUsed (MutexReach-IsUsed v reach) step

  -- However the threads call the mutex and the scheduler, from a mutex in order: a thread
  -- whose `mutex_lock` returned, or whose `mutex_trylock` returned 0, and that did not unlock
  -- the mutex since, is its owner, so that no two threads hold it at once.
  pub MutexReach-exclusive :
      {s s' : MutexState} {held held' inside inside' : List ℕ} (t u : ℕ)
      → IsUsed s held inside
      → MutexReach s held inside s' held' inside'
      → 0 < count t held'
      → 0 < count u held'
      → (s'.mutex.owner ≡ some t) × (t ≡ u)
  MutexReach-exclusive {s} {s'} {held} {held'} t u v reach ct cu =
      let after = (MutexReach-IsUsed v reach).base in
      let mine = owner_of_held s'.mutex.owner t held' after.exclusive ct in
      let yours = owner_of_held s'.mutex.owner u held' after.exclusive cu in
      (mine, some_inj (sym mine ∙ yours))
    where
      some_inj : {a b : ℕ} → some a ≡ some b → a ≡ b
      some_inj e = cc

  -- However the threads call the mutex and the scheduler, from a mutex in order: while the
  -- mutex is free and calls of `mutex_lock` went to sleep and did not return, its queue holds
  -- the waiters of these calls, in their order, and the thread of the first of them is ready,
  -- and current or once in the list of its priority.
  pub MutexReach-woken :
      {s s' : MutexState} {held held' inside inside' : List ℕ} (w : ℕ)
      → IsUsed s held inside
      → MutexReach s held inside s' held' inside'
      → s'.mutex.locked ≡ false
      → first? inside' ≡ some w
      → (nodes s'.mutex.waiters ≡ inside')
        × ((s'.kernel.threads (s'.waiter_threads w)).state ≡ running)
        × (presence s'.kernel (s'.waiter_threads w) ≡ 1)
  MutexReach-woken {s} {s'} w v reach off first =
      let used = MutexReach-IsUsed v reach in
      let after = used.base in
      let here = ap first? used.queue ∙ first in
      let ready = after.waiting.woken w off here in
      let there = first-count (nodes s'.mutex.waiters) w here in
      (
        used.queue,
        ready,
        after.system.orderly.present (s'.waiter_threads w) ready (after.waiting.waits w there).1,
      )
