-- ===== src/Boot/Booting.antt =====
-- The threads while the system starts: `thread_dummy` runs, at preemption level 1, and no switch takes
-- place.
use x.Base.{
  ℕ, ◌+◌, ◌<◌, ◌≡◌, ◌≢◌, refl, ap, sym, ◌∙◌, subst, Bool, false, ==_eq, ==_ne, arith, update, none,
  [], inl,
}
use mathlib.Core.Path.{fun_ext}
use x.LinkedList.{LinkedList}
use x.Thread.State.{Kernel, Thread, running, dead, in_code, at_start}
use x.Thread.System.{Resumable, IsOrderly, put-IsOrderly, running_ne_dead}
use x.Thread.Add.{added, MayAdd, added-IsOrderly}

-- No thread.
abbrev pub no_thread : Thread
no_thread = record {
  state = dead;
  yield = false;
  preempt_level = 0;
  priority = 0;
  joiner = none;
  name = [];
  stack = none;
  sp = 0;
  point = in_code;
}

module _ ⦃lib : LinkedList⦄ where
  -- `thread_dummy` in the place of the idle thread.
  abbrev pub view : Kernel → Kernel
  view k = record k { idle = k.current; threads = update k.threads k.idle no_thread }

  -- The current thread at level 1, told to yield or not.
  abbrev pub dummy : Kernel → Bool → Thread
  dummy k yield = record (k.threads k.current) { yield = yield; preempt_level = 1 }

  pub record IsBooting (k : Kernel) : Type 0 where
    pub orderly : IsOrderly (view k)
    pub apart : k.idle ≢ k.current
    pub level : (k.threads k.current).preempt_level ≡ 1
    pub runs : (k.threads k.current).state ≡ running
    pub idle_runs : (k.threads k.idle).state ≡ running
    pub idle_level : (k.threads k.idle).preempt_level ≡ 1
    pub idle_point : (k.threads k.idle).point ≡ at_start

  -- The state with one thread more.
  abbrev pub with_thread : Kernel → ℕ → Thread → Bool → Kernel
  with_thread k t th yield = record k {
    threads = update (update k.threads t th) k.current (dummy k yield);
    lists = update k.lists th.priority (lib.list_insert_tail (k.lists th.priority) t);
    nr_threads = k.nr_threads + 1;
  }

  pub with_thread-IsBooting :
      (k : Kernel) (t : ℕ) (th : Thread) (yield : Bool)
      → IsBooting k
      → (k.threads t).state ≡ dead
      → th.state ≡ running
      → th.priority < 20
      → th.preempt_level ≡ 1
      → th.point ≡ at_start
      → IsBooting (with_thread k t th yield)
  with_thread-IsBooting k t th yield b gone ready bound level point = record {
    orderly =
        subst
          (λ ts. IsOrderly (record (with_thread k t th yield) { idle = k.current; threads = ts }))
          same v2;
    apart = b.apart;
    level = ap (λ d. d.preempt_level) self;
    runs = ap (λ d. d.state) self ∙ b.runs;
    idle_runs = ap (λ d. d.state) idle ∙ b.idle_runs;
    idle_level = ap (λ d. d.preempt_level) idle ∙ b.idle_level;
    idle_point = ap (λ d. d.point) idle ∙ b.idle_point;
  }
    where
      other : t ≢ k.current
      other e = running_ne_dead (sym b.runs ∙ ap (λ t. (k.threads t).state) (sym e) ∙ gone)

      busy : t ≢ k.idle
      busy e = running_ne_dead (sym b.idle_runs ∙ ap (λ t. (k.threads t).state) (sym e) ∙ gone)

      d : Thread
      d = dummy k yield

      before : update k.threads k.idle no_thread k.current ≡ k.threads k.current
      before = rw (==_ne k.idle k.current b.apart) refl

      v1 :
          IsOrderly
            (record (view k) { threads = update (update k.threads k.idle no_thread) k.current d })
      v1 =
          put-IsOrderly (view k) d k.eflags b.orderly (sym (ap (λ d. d.priority) before))
            (inl (sym (ap (λ d. d.state) before)))

      there : update (update k.threads k.idle no_thread) k.current d t ≡ k.threads t
      there = rw (==_ne k.current t (λ e. other (sym e)), ==_ne k.idle t (λ e. busy (sym e))) refl

      m :
          MayAdd
            (record (view k) { threads = update (update k.threads k.idle no_thread) k.current d })
            t
            th
      m = record {
        rests = λ e. running_ne_dead (sym e ∙ ap (λ d. d.state) there ∙ gone);
        other = other;
        busy = other;
        ready = ready;
        bound = bound;
        level = level;
        point = subst Resumable (sym point) tt;
      }

      v2 : IsOrderly (
          added
            (record (view k) { threads = update (update k.threads k.idle no_thread) k.current d })
            t
            th)
      v2 = added-IsOrderly _ t th v1 m

      same :
          update (update (update k.threads k.idle no_thread) k.current d) t th
          ≡ update (update (update k.threads t th) k.current d) k.idle no_thread
      same = fun_ext λ q. ground (arith, b.apart, other, busy)

      self : (with_thread k t th yield).threads k.current ≡ d
      self = rw (==_eq k.current k.current refl) refl

      idle : (with_thread k t th yield).threads k.idle ≡ k.threads k.idle
      idle = rw (==_ne k.current k.idle (λ e. b.apart (sym e)), ==_ne t k.idle busy) refl
