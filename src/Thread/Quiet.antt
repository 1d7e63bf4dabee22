-- ===== src/Thread/Quiet.antt =====
-- Sections without preemption in src/thread.c after which the current thread goes on: nested ones, and
-- those of a thread that was not told to yield.
use x.Base.{ℕ, ◌+◌, ◌-◌, ◌<◌, ◌≡◌, refl, ap, sym, ◌∙◌, subst, false, ==_eq, ==_ne, arith}
use mathlib.Core.Path.{fun_ext}
use native.Mathlib.Decide.{ℕ_discrete}
use x.Base.Outcome.{ok}
use x.LinkedList.{LinkedList}
use x.Cpu.Flags.{cpu_intr_restore}
use x.Thread.State.{Kernel, thread_should_yield}
use x.Thread.Sched.{thread_preempt_enable, thread_unlock_scheduler}
use x.Thread.Calls.{at_level}
use x.Thread.Enable.{no_yield_lem, if_needed_no}
use x.Thread.Held.{unlock_held}

module _ ⦃lib : LinkedList⦄ where
  -- Preemption is disabled once more.
  abbrev pub masked : Kernel → Kernel
  masked k = at_level k ((k.threads k.current).preempt_level + 1) k.eflags

  pub masked_self :
      (k : Kernel)
      → (masked k).threads k.current
        ≡ record (k.threads k.current) { preempt_level = (k.threads k.current).preempt_level + 1 }
  masked_self k = rw (==_eq k.current k.current refl) refl

  down : (n : ℕ) → n + 1 - 1 ≡ n
  down n = omega arith

  unmasked :
      (k : Kernel)
      → at_level (masked k) (((masked k).threads k.current).preempt_level - 1) k.eflags ≡ k
  unmasked k =
      ap (λ ts. record k { threads = ts })
        (fun_ext λ t. elim (ℕ_discrete k.current t) [
          | yes e ↦
              rw (==_eq k.current t e, ==_eq k.current k.current refl)
                (ap (λ n. record (k.threads k.current) { preempt_level = n })
                    (down (k.threads k.current).preempt_level)
                  ∙ ap k.threads e)
          | no other ↦ rw (==_ne k.current t other) refl
        ])

  -- A nested section leaves the threads as they were.
  pub masked_held :
      (k : Kernel)
      → 0 < (k.threads k.current).preempt_level
      → thread_preempt_enable (masked k) ≡ ok k
  unfolding thread_unlock_scheduler cpu_intr_restore
  masked_held k pos =
      let nested : 1 < ((masked k).threads k.current).preempt_level =
        subst (λ d. 1 < d.preempt_level) (sym (masked_self k)) (omega (arith, pos)) in
      unlock_held (masked k) k.eflags nested ∙ ap ok (unmasked k)

  -- So does a section of a thread that was not told to yield.
  pub masked_quiet :
      (k : Kernel) → (k.threads k.current).yield ≡ false → thread_preempt_enable (masked k) ≡ ok k
  unfolding thread_preempt_enable thread_should_yield
  masked_quiet k calm =
      let pos : 0 < ((masked k).threads k.current).preempt_level =
        subst (λ d. 0 < d.preempt_level) (sym (masked_self k)) (omega arith) in
      rw (no_yield_lem (masked k) pos, unmasked k) (if_needed_no k calm)
