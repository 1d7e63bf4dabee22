-- ===== src/Boot/Enable.antt =====
-- `thread_enable_scheduler` of src/thread.c: the first thread is loaded, and the system is in order.
use x.Base.{
  ℕ, ◌+◌, ◌≤◌, ◌<◌, ◌≡◌, ◌≢◌, refl, ap, sym, ◌∙◌, subst, false, ==_eq, ==_ne, arith, update, count,
  inr, ◌==◌, if◌then◌else◌,
}
use native.Mathlib.Decide.{ℕ_discrete}
use x.Base.Outcome.{ok}
use x.LinkedList.{LinkedList}
use x.Cpu.Flags.{cpu_intr_enabled}
use x.Thread.State.{Kernel, Thread, running, dead}
use x.Thread.Queue.{queued}
use x.Thread.Sched.{thread_enable_scheduler}
use x.Thread.Next.{IsQueue, Chosen, idles, takes, get_next-Chosen}
use x.Thread.Park.{presence}
use x.Thread.Pick.{Picked, Chosen-Picked}
use x.Thread.System.{Resumable, IsOrderly, IsLoaded, IsSystem, running_ne_dead}
use x.Boot.Booting.{no_thread, view, IsBooting}

module _ ⦃lib : LinkedList⦄ where
  open lib use {Head, nodes}

  -- The state without `thread_dummy`, which is never loaded again.
  abbrev pub without : ℕ → Kernel → Kernel
  without d k = record k { threads = update k.threads d no_thread }

  module _ (k : Kernel) (b : IsBooting k) where
    seen : (s : ℕ) → s ≢ k.idle → (view k).threads s ≡ k.threads s
    seen s far = rw (==_ne k.idle s (λ e. far (sym e))) refl

    not_idle : (s : ℕ) → ((view k).threads s).state ≡ running → s ≢ k.idle
    not_idle s runs e =
        let none_there : (view k).threads s ≡ no_thread = rw (==_eq k.idle s (sym e)) refl in
        running_ne_dead (sym runs ∙ ap (λ d. d.state) none_there)

    boot-IsQueue : IsQueue k
    boot-IsQueue = record {
      once = b.orderly.scheduled.queue.once;
      member = λ p s lt c.
          let r = b.orderly.scheduled.queue.member p s lt c in
          let far = not_idle s r.runs in
          record {
            runs = ap (λ d. d.state) (sym (seen s far)) ∙ r.runs;
            priority = ap (λ d. d.priority) (sym (seen s far)) ∙ r.priority;
            not_idle = far;
          };
    }

    boot_counted : k.nr_threads ≡ queued 20 k.lists
    boot_counted = ground (arith, b.orderly.scheduled.counted)

    -- The thread that is chosen may be loaded, and is not `thread_dummy`.
    record MayLoad (t : ℕ) (k' : Kernel) : Type 0 where
      pub current : k'.current ≡ t
      pub other : t ≢ k.current
      pub level : (k.threads t).preempt_level ≡ 1
      pub point : Resumable (k.threads t).point

    waits_lem :
        (s : ℕ)
        → s ≢ k.current
        → (k.threads s).state ≢ dead
        → ((k.threads s).preempt_level ≡ 1) × Resumable (k.threads s).point
    waits_lem s far alive = elim (ℕ_discrete s k.idle) [
      | yes e ↦ (
        ap (λ s. (k.threads s).preempt_level) e ∙ b.idle_level,
        subst Resumable (sym (ap (λ s. (k.threads s).point) e ∙ b.idle_point)) tt,
      )
      | no away ↦
          let same = seen s away in
          let w = b.orderly.waits s far (λ e. alive (sym (ap (λ d. d.state) same) ∙ e)) in
          (sym (ap (λ d. d.preempt_level) same) ∙ w.0, subst (λ d. Resumable d.point) same w.1)
    ]

    Chosen-MayLoad : {t : ℕ} {k' : Kernel} → Chosen k t k' → MayLoad t k'
    Chosen-MayLoad (idles z) =
        let w = waits_lem k.idle b.apart (λ e. running_ne_dead (sym b.idle_runs ∙ e)) in
        record { current = refl; other = b.apart; level = w.0; point = w.1 }
    Chosen-MayLoad (takes p t l lt e above) =
        let there : 0 < count t (nodes (k.lists p)) = ground (arith, ap (count t) e) in
        let far : t ≢ k.current = λ same. omega (
          arith,
          there,
          b.orderly.scheduled.apart p lt,
          ap (λ t. count t (nodes (k.lists p))) same,
        ) in
        let r = boot-IsQueue.member p t lt there in
        let w = waits_lem t far (λ gone. running_ne_dead (sym r.runs ∙ gone)) in
        record { current = refl; other = far; level = w.0; point = w.1 }

    module _ (c : ℕ) (l : ℕ → Head) (p : Picked k (record k { current = c; lists = l }))
        (other : c ≢ k.current) where
      abbrev loaded : Kernel
      loaded = without k.current (record k { current = c; lists = l })

      same_thread : (s : ℕ) → s ≢ k.current → loaded.threads s ≡ k.threads s
      same_thread s far = rw (==_ne k.current s (λ e. far (sym e))) refl

      alive_other : (s : ℕ) → (loaded.threads s).state ≢ dead → s ≢ k.current
      alive_other s alive e =
          let none_there : loaded.threads s ≡ no_thread = rw (==_eq k.current s (sym e)) refl in
          alive (ap (λ d. d.state) none_there)

      runs_other : (s : ℕ) → (loaded.threads s).state ≡ running → s ≢ k.current
      runs_other s runs = alive_other s (λ gone. running_ne_dead (sym runs ∙ gone))

      -- `thread_dummy` is in no list.
      dummy_absent : (q : ℕ) → q < 20 → count k.current (nodes (l q)) ≡ 0
      dummy_absent q lt = elim (ℕ_discrete (count k.current (nodes (l q))) 0) [
        | yes e ↦ e
        | no some_there ↦
            let there : 0 < count k.current (nodes (l q)) = omega (arith, some_there) in
            let r = p.scheduled.queue.member q k.current lt there in
            let low : (k.threads k.current).priority < 20 =
              subst (λ n. n < 20) (sym r.priority) lt in
            let kept = p.kept k.current (λ e. b.apart (sym e)) low in
            let here : 0 < count k.current (nodes (l (k.threads k.current).priority)) =
              subst (λ q. 0 < count k.current (nodes (l q))) (sym r.priority) there in
            let before = b.orderly.scheduled.apart (k.threads k.current).priority low in
            absurd (omega (arith, here, kept, before))
      ]

      loaded-IsOrderly : IsOrderly loaded
      loaded-IsOrderly = record {
        scheduled = record {
          queue = record {
            once = p.scheduled.queue.once;
            member = λ q s lt there.
                let r = p.scheduled.queue.member q s lt there in
                let far : s ≢ k.current =
                  λ e. omega (arith, there, dummy_absent q lt, ap (λ s. count s (nodes (l q))) e) in
                record {
                  runs = ap (λ d. d.state) (same_thread s far) ∙ r.runs;
                  priority = ap (λ d. d.priority) (same_thread s far) ∙ r.priority;
                  not_idle = r.not_idle;
                };
          };
          apart = p.scheduled.apart;
          bounded = λ busy.
              subst (λ d. d.priority < 20) (sym (same_thread c other)) (p.scheduled.bounded busy);
          idle_runs = ap (λ d. d.state) (same_thread k.idle b.apart) ∙ b.idle_runs;
          counted = p.scheduled.counted;
        };
        bounded = λ s alive busy. bound s (alive_other s alive) alive busy;
        present = λ s runs busy.
            let far = runs_other s runs in
            let same = same_thread s far in
            let runs' : (k.threads s).state ≡ running = sym (ap (λ d. d.state) same) ∙ runs in
            let low : (k.threads s).priority < 20 =
              subst (λ d. d.priority < 20) same
                (bound s far (λ gone. running_ne_dead (sym runs ∙ gone)) busy) in
            let kept = p.kept s busy low in
            let was : presence (view k) s ≡ 1 =
              b.orderly.present s (ap (λ d. d.state) (seen s busy) ∙ runs') far in
            let was' : count s (nodes (k.lists (k.threads s).priority))
                  + (if k.current == s then 1 else 0)
                ≡ 1 =
              ap
                (λ (d : Thread).
                  count s (nodes (k.lists d.priority)) + (if k.current == s then 1 else 0))
                (sym (seen s busy))
              ∙ was in
            let once : count s (nodes (k.lists (k.threads s).priority)) ≡ 1 =
              ground (arith, was', far) in
            ap (λ (d : Thread). count s (nodes (l d.priority)) + (if c == s then 1 else 0)) same
            ∙ kept
            ∙ ground (arith, once);
        waits = λ s away alive.
            let far = alive_other s alive in
            let same = same_thread s far in
            let w = waits_lem s far (λ gone. alive (ap (λ d. d.state) same ∙ gone)) in
            (ap (λ d. d.preempt_level) same ∙ w.0, subst (λ d. Resumable d.point) (sym same) w.1);
      }
        where
          bound :
              (s : ℕ)
              → s ≢ k.current
              → (loaded.threads s).state ≢ dead
              → s ≢ k.idle
              → (loaded.threads s).priority < 20
          bound s far alive busy =
              let same = same_thread s far ∙ sym (seen s busy) in
              subst (λ d. d.priority < 20) (sym same)
                (b.orderly.bounded s (λ gone. alive (ap (λ d. d.state) same ∙ gone)) far)

      loaded-IsSystem :
          Resumable (k.threads c).point
          → (k.threads c).preempt_level ≡ 1
          → cpu_intr_enabled k.eflags ≡ false
          → IsSystem loaded × IsLoaded loaded
      loaded-IsSystem point level off =
          let same = same_thread c other in
          let now : IsLoaded loaded = record {
            point = subst (λ d. Resumable d.point) (sym same) point;
            level = ap (λ d. d.preempt_level) same ∙ level;
            off = off;
          } in
          (
            record {
              orderly = loaded-IsOrderly;
              runs = ap (λ d. d.state) same ∙ p.runs;
              now = inr now;
            },
            now,
          )

    -- While the system starts, with interrupts off, `thread_enable_scheduler` loads a ready thread of the
    -- highest priority; without `thread_dummy`, the system is then in order.
    pub enable_lem :
        cpu_intr_enabled k.eflags ≡ false
        → (k' : Kernel) × (thread_enable_scheduler k ≡ ok k')
          × IsSystem (without k.current k')
          × IsLoaded (without k.current k')
          × (k'.current ≢ k.current)
          × ((p t : ℕ)
              → p < 20
              → 0 < count t (nodes (k'.lists p))
              → (k'.current ≢ k'.idle) × (p ≤ (k'.threads k'.current).priority))
    unfolding thread_enable_scheduler
    enable_lem off =
        let (t, k', code, chosen) = get_next-Chosen k boot-IsQueue boot_counted in
        let may = Chosen-MayLoad chosen in
        let p = Chosen-Picked boot-IsQueue boot_counted b.idle_runs chosen in
        let other : k'.current ≢ k.current = λ e. may.other (sym may.current ∙ e) in
        let same_threads : k'.threads ≡ k.threads = ap (λ k. k.threads) p.same in
        let level : (k'.threads t).preempt_level ≡ 1 =
          ap (λ ts. (ts t).preempt_level) same_threads ∙ may.level in
        let (system, now) =
          loaded-IsSystem k'.current k'.lists (subst (Picked k) p.same p) other
            (subst (λ t. Resumable (k.threads t).point) (sym may.current) may.point)
            (ap (λ t. (k.threads t).preempt_level) may.current ∙ may.level) off in
        (
          k',
          rw (code, ==_eq (k'.threads t).preempt_level 1 level) refl,
          subst (λ k1. IsSystem (without k.current k1)) (sym p.same) system,
          subst (λ k1. IsLoaded (without k.current k1)) (sym p.same) now,
          other,
          p.highest,
        )
