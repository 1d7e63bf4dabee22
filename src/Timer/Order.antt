-- ===== src/Timer/Order.antt =====
-- `timer_schedule` of src/timer.c keeps the list of timers in the order of their ticks.
use x.Base.{
  ℕ, ◌+◌, ◌≤◌, ◌<◌, ◌≡◌, ◌≢◌, refl, ap, sym, ◌∙◌, subst, true, false, Option, none, some, List, [],
  ◌∷◌, ◌++◌, ltb, ◌==◌, ==_iff, ==_ne, ==_eq, if◌then◌else◌, update, arith, count, count-append,
  Bool-cases, inl, inr,
}
use x.Base.Word.{sub32}
use x.Base.Outcome.{ok}
use x.LinkedList.{LinkedList, is_nil, first?, insert_in_front}
use x.Timer.{Timers, timer_expired, find_place, timer_get_time, timer_schedule, lock, unlock}
use x.Timer.Ticks.{expired_window}

-- Every element from `n` on, by the measure `f`.
abbrev pub From : (ℕ → ℕ) → ℕ → List ℕ → Type 0
From f n [] = Unit {0}
From f n (x ∷ xs) = (n ≤ f x) × From f n xs

abbrev pub Sorted : (ℕ → ℕ) → List ℕ → Type 0
Sorted f [] = Unit {0}
Sorted f (x ∷ xs) = From f (f x) xs × Sorted f xs

From-cong :
    (f g : ℕ → ℕ) (n : ℕ) (xs : List ℕ)
    → ((x : ℕ) → 0 < count x xs → f x ≡ g x)
    → From f n xs
    → From g n xs
From-cong f g n [] same h = tt
From-cong f g n (x ∷ xs) same h = (
  omega (arith, h.0, same x (ground arith)),
  From-cong f g n xs (λ y c. same y (omega arith)) h.1,
)

Sorted-cong :
    (f g : ℕ → ℕ) (xs : List ℕ) → ((x : ℕ) → 0 < count x xs → f x ≡ g x) → Sorted f xs → Sorted g xs
Sorted-cong f g [] same h = tt
Sorted-cong f g (x ∷ xs) same h = (
  subst (λ n. From g n xs) (same x (ground arith))
      (From-cong f g (f x) xs (λ y c. same y (omega arith)) h.0),
  Sorted-cong f g xs (λ y c. same y (omega arith)) h.1,
)

From-snoc : (f : ℕ → ℕ) (n x : ℕ) (xs : List ℕ) → From f n xs → n ≤ f x → From f n (xs ++ (x ∷ []))
From-snoc f n x [] h le = (le, tt)
From-snoc f n x (y ∷ xs) h le = (h.0, From-snoc f n x xs h.1 le)

From-le : (f : ℕ → ℕ) (n m : ℕ) (xs : List ℕ) → n ≤ m → From f m xs → From f n xs
From-le f n m [] le h = tt
From-le f n m (x ∷ xs) le h = (omega (arith, h.0), From-le f n m xs le h.1)

pub count-insert :
    (x n : ℕ) (next : Option ℕ) (xs : List ℕ)
    → count x (insert_in_front next n xs) ≡ count x xs + (if n == x then 1 else 0)
count-insert x n none xs = omega (arith, count-append x xs (n ∷ []))
count-insert x n (some next) [] = ground arith
count-insert x n (some next) (y ∷ xs) = ground (arith, count-insert x n (some next) xs)

some-injective : {x y : ℕ} → some x ≡ some y → x ≡ y
some-injective e = cc

first-count :
    (n : ℕ) (xs : List ℕ) → 0 < count n xs → (x : ℕ) × (first? xs ≡ some x) × (is_nil xs ≡ false)
first-count n [] c = absurd (omega arith)
first-count n (x ∷ xs) c = (x, refl, refl)

module _ ⦃lib : LinkedList⦄ where
  open lib use {nodes, list_first, list_insert_before, nodes-insert_before, first-nodes}

  abbrev pub time : Timers → ℕ → ℕ → ℕ
  time t base x = sub32 (t.timers x).ticks base

  -- The timers expire less than 2^31 ticks behind the base, in the order of the list; each of them is
  -- linked once, and the flag and the time to wake up are those of the list.
  pub record IsOrdered (base : ℕ) (t : Timers) : Type 0 where
    pub word : base < 4294967296
    pub near :
        (x : ℕ)
        → 0 < count x (nodes t.timer_list)
        → ((t.timers x).ticks < 4294967296) × (time t base x < 2147483648)
    pub sorted : Sorted (time t base) (nodes t.timer_list)
    pub once : (x : ℕ) → count x (nodes t.timer_list) ≤ 1
    pub unlocked : t.locked ≡ false
    pub empty : t.timer_list_empty ≡ is_nil (nodes t.timer_list)
    pub wakeup :
        (x : ℕ) → first? (nodes t.timer_list) ≡ some x → t.timer_wakeup_ticks ≡ (t.timers x).ticks

  pub get_time_lem :
      (t : Timers) (timer : ℕ)
      → t.locked ≡ false
      → timer_get_time t timer ≡ ok ((t.timers timer).ticks, record t { locked = false })
  unfolding timer_get_time lock unlock
  get_time_lem t timer free = rw free refl

  found-member :
      (t : Timers) (ticks z : ℕ) (xs : List ℕ) → find_place t ticks xs ≡ some z → 0 < count z xs
  unfolding find_place
  found-member t ticks z [] e = absurd (cc)
  found-member t ticks z (x ∷ xs) e = elim (Bool-cases (timer_expired t x ticks)) [
    | inl before ↦ omega (arith, found-member t ticks z xs (rw before at e))
    | inr here ↦ let same : some x ≡ some z = rw here at e in let back : x ≡ z = cc in ground arith
  ]

  -- The place is behind a node that it is not.
  insert-behind :
      (x n : ℕ) (place : Option ℕ) (xs : List ℕ)
      → (place ≡ some x → 0 < count x xs)
      → count x xs ≡ 0
      → insert_in_front place n (x ∷ xs) ≡ x ∷ insert_in_front place n xs
  insert-behind x n none xs member absent = refl
  insert-behind x n (some next) xs member absent = elim (Bool-cases (x == next)) [
    | inl same ↦ absurd (omega (arith, absent, member (ap some (sym ((==_iff x next).0 same)))))
    | inr other ↦ rw other
  ]

  expired_lem :
      (base : ℕ) (t : Timers) (x ticks : ℕ)
      → base < 4294967296
      → ticks < 4294967296
      → sub32 ticks base < 2147483648
      → ((t.timers x).ticks < 4294967296) × (time t base x < 2147483648)
      → timer_expired t x ticks ≡ ltb (time t base x) (sub32 ticks base)
  unfolding timer_expired
  expired_lem base t x ticks lb lt near_ticks near =
      (expired_window base (t.timers x).ticks ticks lb near.0 lt near.1 near_ticks).0

  place_lem :
      (base : ℕ) (t : Timers) (timer ticks : ℕ) (xs : List ℕ)
      → base < 4294967296
      → ticks < 4294967296
      → sub32 ticks base < 2147483648
      → (t.timers timer).ticks ≡ ticks
      → ((x : ℕ)
          → 0 < count x xs
          → ((t.timers x).ticks < 4294967296) × (time t base x < 2147483648))
      → ((x : ℕ) → count x xs ≤ 1)
      → Sorted (time t base) xs
      → Sorted (time t base) (insert_in_front (find_place t ticks xs) timer xs)
        × ((n : ℕ)
            → n ≤ sub32 ticks base
            → From (time t base) n xs
            → From (time t base) n (insert_in_front (find_place t ticks xs) timer xs))
  unfolding find_place
  place_lem base t timer ticks [] lb lt near_ticks e near once sorted =
      ((tt, tt), λ n le from. (omega (arith, ap (λ k. sub32 k base) e), tt))
  place_lem base t timer ticks (x ∷ xs) lb lt near_ticks e near once sorted =
      elim (Bool-cases (timer_expired t x ticks)) [
        | inl before ↦
            let (rest, from) =
              place_lem base t timer ticks xs lb lt near_ticks e (λ y c. near y (omega arith))
                (λ y. omega (arith, once y)) sorted.1 in
            let behind =
              insert-behind x timer (find_place t ticks xs) xs (found-member t ticks x xs)
                (ground (arith, once x)) in
            let less : time t base x ≤ sub32 ticks base = ground (
              arith,
              expired_lem base t x ticks lb lt near_ticks (near x (ground arith)),
              before,
            ) in
            rw (before, behind)
              ((from (time t base x) less sorted.0, rest), λ n le all. (all.0, from n le all.1))
        | inr here ↦
            let at : time t base timer ≡ sub32 ticks base = ap (λ k. sub32 k base) e in
            let less : time t base timer ≤ time t base x = ground (
              arith,
              expired_lem base t x ticks lb lt near_ticks (near x (ground arith)),
              here,
              at,
            ) in
            rw (here, ==_eq x x refl)
              (
                (
                  (
                    less,
                    From-le (time t base) (time t base timer) (time t base x) xs less sorted.0,
                  ),
                  sorted,
                ),
                λ n le all. (omega (arith, at), all),
              )
      ]

  -- `timer_schedule` of a timer that is not linked returns, if the timers of the list and the new
  -- one expire less than 2^31 ticks behind a common base. The list is in order again, with the timer
  -- in it; the other timers stay as they are.
  pub schedule-IsOrdered :
      (base : ℕ) (t : Timers) (timer ticks : ℕ)
      → IsOrdered base t
      → count timer (nodes t.timer_list) ≡ 0
      → ticks < 4294967296
      → sub32 ticks base < 2147483648
      → (t' : Timers) × (timer_schedule t timer ticks ≡ ok t')
        × IsOrdered base t'
        × ((t'.timers timer).ticks ≡ ticks)
        × ((x : ℕ)
            → count x (nodes t'.timer_list)
              ≡ count x (nodes t.timer_list) + (if timer == x then 1 else 0))
        × ((x : ℕ) → timer ≢ x → t'.timers x ≡ t.timers x)
  unfolding timer_schedule lock unlock
  schedule-IsOrdered base t timer ticks v absent lt near_ticks = (
    record t1 {
      timer_list = list;
      timer_list_empty = false;
      timer_wakeup_ticks = (t1.timers first).ticks;
      locked = false;
    },
    rw (v.unlocked, found),
    record {
      word = v.word;
      near = λ x c. elim (Bool-cases (timer == x)) [
        | inl same ↦ rw same (lt, near_ticks)
        | inr other ↦ rw other (v.near x (ground (arith, there x, other)))
      ];
      sorted = rw after placed;
      once = λ x. elim (Bool-cases (timer == x)) [
        | inl same ↦ ground (arith, there x, gone x same)
        | inr other ↦ ground (arith, there x, v.once x, other)
      ];
      unlocked = refl;
      empty = sym one.2;
      wakeup = λ x e.
          let same : first ≡ x = some-injective (sym one.1 ∙ e) in
          ap (λ y. (t1.timers y).ticks) same;
    },
    rw (==_eq timer timer refl),
    λ x. rw after (count-insert x timer place (nodes t.timer_list)),
    λ x other. rw (==_ne timer x other),
  )
    where
      t1 : Timers
      t1 = record t {
        locked = true;
        timers = update t.timers timer (record (t.timers timer) { ticks = ticks });
      }

      place : Option ℕ
      place = find_place t1 ticks (nodes t.timer_list)

      list : lib.Head
      list = list_insert_before t.timer_list place timer

      after : nodes list ≡ insert_in_front place timer (nodes t.timer_list)
      after = nodes-insert_before t.timer_list place timer absent

      there :
          (x : ℕ)
          → count x (nodes list) ≡ count x (nodes t.timer_list) + (if timer == x then 1 else 0)
      there x = rw after (count-insert x timer place (nodes t.timer_list))

      one : (x : ℕ) × (first? (nodes list) ≡ some x) × (is_nil (nodes list) ≡ false)
      one = first-count timer (nodes list) (ground (arith, there timer))

      first : ℕ
      first = one.0

      found : list_first list ≡ some first
      found = first-nodes list ∙ one.1

      gone : (x : ℕ) → (timer == x) ≡ true → count x (nodes t.timer_list) ≡ 0
      gone x same = subst (λ y. count y (nodes t.timer_list) ≡ 0) ((==_iff timer x).0 same) absent

      old : (x : ℕ) → 0 < count x (nodes t.timer_list) → t1.timers x ≡ t.timers x
      old x c = elim (Bool-cases (timer == x)) [
        | inl same ↦ absurd (omega (arith, gone x same, c))
        | inr other ↦ rw other
      ]

      at : (t1.timers timer).ticks ≡ ticks
      at = rw (==_eq timer timer refl)

      placed : Sorted (time t1 base) (insert_in_front place timer (nodes t.timer_list))
      placed =
          (place_lem base t1 timer ticks (nodes t.timer_list) v.word lt near_ticks at
            (λ x c. rw (old x c) (v.near x c)) v.once
            (Sorted-cong (time t base) (time t1 base) (nodes t.timer_list)
              (λ x c. ap (λ d. sub32 d.ticks base) (sym (old x c))) v.sorted)).0
