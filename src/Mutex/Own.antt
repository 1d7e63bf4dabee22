-- ===== src/Mutex/Own.antt =====
-- What holds of a mutex of src/mutex.c between two calls: its owner, and the threads that wait for it.
use x.Base.{
  ℕ, ◌<◌, ◌≤◌, ◌≡◌, ◌≢◌, refl, ap, sym, ◌∙◌, subst, Bool, true, false, not, ◌⊎◌, inl, inr, Option,
  none, some, List, [], ◌∷◌, count, ==_eq, arith,
}
use x.LinkedList.{LinkedList, first?}
use x.Thread.State.{Kernel, running, dead}
use x.Thread.System.{IsSystem, running_ne_dead}
use x.Thread.Enable.{Continued}
use x.Mutex.{MutexState, is_null}

-- The threads that hold a mutex, by its owner.
abbrev pub holders : Option ℕ → List ℕ
holders none = []
holders (some t) = t ∷ []

pub first-count : (xs : List ℕ) (w : ℕ) → first? xs ≡ some w → 0 < count w xs
first-count [] w e = cc
first-count (x ∷ xs) w e = let same : x ≡ w = some_inj e in rw (==_eq x w same) (omega arith)
  where
    some_inj : {a b : ℕ} → some a ≡ some b → a ≡ b
    some_inj e = cc

module _ ⦃lib : LinkedList⦄ where
  open lib use {nodes}

  -- The waiters `xs` and their threads. While nobody holds the mutex, the first of them is awake.
  pub record IsWaiting (k : Kernel) (xs : List ℕ) (threads : ℕ → ℕ) (locked : Bool) : Type 0 where
    pub once : (w : ℕ) → count w xs ≤ 1
    pub waits :
        (w : ℕ) → 0 < count w xs → ((k.threads (threads w)).state ≢ dead) × (threads w ≢ k.idle)
    pub woken :
        (w : ℕ) → locked ≡ false → first? xs ≡ some w → (k.threads (threads w)).state ≡ running

  -- The mutex, in a system in order, and the threads that hold it: they are its owner, if it has one.
  pub record IsMutex (s : MutexState) (held : List ℕ) : Type 0 where
    pub system : IsSystem s.kernel
    pub exclusive : held ≡ holders s.mutex.owner
    pub flag : s.mutex.locked ≡ not (is_null s.mutex.owner)
    pub waiting : IsWaiting s.kernel (nodes s.mutex.waiters) s.waiter_threads s.mutex.locked

  -- Threads that wait may be woken up.
  pub moved-IsWaiting :
      (k k' : Kernel) (xs : List ℕ) (threads : ℕ → ℕ) (locked : Bool)
      → k'.idle ≡ k.idle
      → ((w : ℕ)
          → 0 < count w xs
          → ((k'.threads (threads w)).state ≡ (k.threads (threads w)).state)
            ⊎ ((k'.threads (threads w)).state ≡ running))
      → IsWaiting k xs threads locked
      → IsWaiting k' xs threads locked
  moved-IsWaiting k k' xs threads locked idle moves v = record {
    once = v.once;
    waits = λ w c. (
      λ gone. elim (moves w c) [
        | inl e ↦ (v.waits w c).0 (sym e ∙ gone)
        | inr e ↦ running_ne_dead (sym e ∙ gone)
      ],
      λ e. (v.waits w c).1 (e ∙ idle),
    );
    woken = λ w open' e. elim (moves w (first-count xs w e)) [
      | inl same ↦ same ∙ v.woken w open' e
      | inr ready ↦ ready
    ];
  }

  pub Continued-IsWaiting :
      (k k' : Kernel) (xs : List ℕ) (threads : ℕ → ℕ) (locked : Bool)
      → Continued k k'
      → IsWaiting k xs threads locked
      → IsWaiting k' xs threads locked
  Continued-IsWaiting k k' xs threads locked c v =
      moved-IsWaiting k k' xs threads locked c.same_idle (λ w there. inl (c.states (threads w))) v

  -- A mutex that is taken has no waiter that must be awake.
  pub taken-IsWaiting :
      (k : Kernel) (xs : List ℕ) (threads : ℕ → ℕ) (locked : Bool)
      → IsWaiting k xs threads locked
      → IsWaiting k xs threads true
  taken-IsWaiting k xs threads locked v = record {
    once = v.once;
    waits = v.waits;
    woken = λ w e. absurd (true_ne_false e);
  }
    where
      true_ne_false : true ≢ false
      true_ne_false e = cc

  pub owner_of_held :
      (owner : Option ℕ) (t : ℕ) (held : List ℕ)
      → held ≡ holders owner
      → 0 < count t held
      → owner ≡ some t
  owner_of_held none t held e c = absurd (go (subst (λ xs. 0 < count t xs) e c))
    where
      go : 0 < count t [] → ⊥
      go c = omega arith
  owner_of_held (some o) t held e c = ap some (go (subst (λ xs. 0 < count t xs) e c))
    where
      go : 0 < count t (o ∷ []) → o ≡ t
      go c = ground arith

  pub unlocked-owner : (owner : Option ℕ) → false ≡ not (is_null owner) → owner ≡ none
  unlocked-owner none e = refl
  unlocked-owner (some t) e = cc
