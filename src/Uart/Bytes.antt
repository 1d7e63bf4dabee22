-- ===== src/Uart/Bytes.antt =====
-- The bytes that uart_read of src/uart.c hands out.
use x.Base.{
  ℕ, ◌≢◌, ◌<◌, ◌+◌, ◌≡◌, refl, ap, sym, ◌∙◌, subst, Option, none, some, List, [], ◌∷◌, ==_eq, arith,
}
use x.Base.Outcome.{Outcome, ok, ◌>>=◌}
use x.LinkedList.{LinkedList}
use x.Cpu.Flags.{cpu_intr_disable, cpu_intr_save, cpu_intr_restore}
use x.Thread.State.{Kernel, sleeping, in_code, after_sleep, thread_self, thread_preempt_disable}
use x.Thread.Sched.{thread_preempt_enable, thread_sleep}
use x.Thread.Calls.{at_level}
use x.Thread.Enable.{Continued, Continued-trans, at_level-Continued, preempt_enable_lem}
use x.Thread.Leave.{Left, sleep_lem}
use x.Thread.Trace.{preempt_disable_lem}
use x.Mutex.{error_busy}
use x.Thread.System.{IsSystem}
use x.Uart.{
  ByteBuffer, Uart, ReadResult, error, byte, sleeps, uart_read_end, uart_read_turn, uart_read,
}

module _ ⦃lib : LinkedList⦄ ⦃buf : ByteBuffer⦄ where
  open buf use {
    Buffer, cbuf_pushb, cbuf_popb, bytes, popb-first, popb-empty, pushb-room, pushb-full,
  }

  waiter_code : Uart → Uart → Option ℕ → Outcome (ReadResult × Uart)
  waiter_code s s1 waiter = elim waiter [
    | some w ↦ uart_read_end s1 s.kernel.eflags (error error_busy)
    | none ↦ uart_read_turn s1 s.kernel.eflags
  ]

  popped_code : Uart → ℕ → Option (ℕ × Buffer) → Outcome (ReadResult × Uart)
  popped_code s eflags popped = elim popped [
    | some (first, rest) ↦ uart_read_end (record s { uart_cbuf = rest }) eflags (byte first)
    | none ↦ do
      let s1 = record s { uart_waiter = some (thread_self s.kernel) }
      k ← thread_sleep s1.kernel
      ok (sleeps, record s1 { kernel = k })
  ]

  -- The call goes on with the flags of its beginning, which `thread_preempt_enable` finds.
  pub record IsBack (k k' : Kernel) : Type 0 where
    pub continued : Continued k k'
    pub flags : thread_preempt_enable (at_level k 1 k.eflags) ≡ ok k'

  -- What `uart_read` comes to: the error of a second reader, the first byte of the buffer, or the sleep
  -- of the reader for an empty one, with interrupts off.
  pub data Read (s : Uart) : ReadResult → Uart → Type 0 where
    refused :
        {w : ℕ} {s' : Uart}
        → s.uart_waiter ≡ some w
        → IsBack s.kernel s'.kernel
        → s' ≡ record s { kernel = s'.kernel }
        → Read s (error error_busy) s'
    taken :
        {x : ℕ} {xs : List ℕ} {s' : Uart}
        → s.uart_waiter ≡ none
        → bytes s.uart_cbuf ≡ x ∷ xs
        → bytes s'.uart_cbuf ≡ xs
        → s'.uart_waiter ≡ none
        → IsBack s.kernel s'.kernel
        → Read s (byte x) s'
    waiting :
        {s' : Uart}
        → s.uart_waiter ≡ none
        → bytes s.uart_cbuf ≡ []
        → s' ≡ record s { kernel = s'.kernel; uart_waiter = some s.kernel.current }
        → Left
            (at_level s.kernel 1 (cpu_intr_disable s.kernel.eflags))
            (record (s.kernel.threads s.kernel.current) {
              preempt_level = 1;
              state = sleeping;
              point = after_sleep (cpu_intr_disable s.kernel.eflags);
            })
            s'.kernel
        → Read s sleeps s'

  module _ (s : Uart) (v : IsSystem s.kernel)
      (code : (s.kernel.threads s.kernel.current).point ≡ in_code)
      (level : (s.kernel.threads s.kernel.current).preempt_level ≡ 0) where
    masked : Uart
    masked = record s { kernel = at_level s.kernel 1 (cpu_intr_disable s.kernel.eflags) }

    self :
        (eflags : ℕ)
        → (at_level s.kernel 1 eflags).threads s.kernel.current
          ≡ record (s.kernel.threads s.kernel.current) { preempt_level = 1 }
    self eflags = rw (==_eq s.kernel.current s.kernel.current refl) refl

    read_code : uart_read s ≡ waiter_code s masked s.uart_waiter
    unfolding uart_read waiter_code cpu_intr_save masked
    read_code =
        let disabled : thread_preempt_disable s.kernel ≡ ok (at_level s.kernel 1 s.kernel.eflags) =
          preempt_disable_lem s.kernel (omega (arith, level))
          ∙ ap (λ n. ok (at_level s.kernel (n + 1) s.kernel.eflags)) level in
        rw disabled refl

    end_lem :
        (k' : Kernel) (b : Buffer) (result : ReadResult)
        → thread_preempt_enable (at_level s.kernel 1 s.kernel.eflags) ≡ ok k'
        → uart_read_end (record masked { uart_cbuf = b }) s.kernel.eflags result
          ≡ ok (result, record s { uart_cbuf = b; kernel = k' })
    unfolding uart_read_end cpu_intr_restore masked
    end_lem k' b result run = rw run refl

    turn_lem :
        uart_read_turn masked s.kernel.eflags
        ≡ popped_code masked s.kernel.eflags (cbuf_popb s.uart_cbuf)
    unfolding uart_read_turn popped_code masked
    turn_lem = refl

    back_lem :
        (k' : Kernel) × (thread_preempt_enable (at_level s.kernel 1 s.kernel.eflags) ≡ ok k')
        × IsBack s.kernel k'
    back_lem =
        let k = s.kernel in
        let c = at_level-Continued k 1 k.eflags v.orderly v.runs code in
        let (k', run, d) =
          preempt_enable_lem (at_level k 1 k.eflags) c.system.orderly c.system.runs
            (ap (λ d. d.point) (self k.eflags) ∙ code)
            (subst (λ d. 0 < d.preempt_level) (sym (self k.eflags)) (omega arith)) in
        (
          k',
          run,
          record { continued = Continued-trans k (at_level k 1 k.eflags) k' c d; flags = run },
        )

    sleep_code :
        (k' : Kernel)
        → s.kernel.current ≢ s.kernel.idle
        → thread_sleep masked.kernel ≡ ok k'
        → popped_code masked s.kernel.eflags none
          ≡ ok (sleeps, record s { kernel = k'; uart_waiter = some s.kernel.current })
    unfolding popped_code masked thread_self
    sleep_code k' busy run = rw run refl

    alone_lem :
        s.kernel.current ≢ s.kernel.idle
        → s.uart_waiter ≡ none
        → (xs : List ℕ) → bytes s.uart_cbuf ≡ xs
        → (r : ReadResult) × (s' : Uart) × (uart_read_turn masked s.kernel.eflags ≡ ok (r, s'))
          × Read s r s'
    unfolding popped_code masked
    alone_lem busy alone [] there =
        let k = s.kernel in
        let off = cpu_intr_disable k.eflags in
        let c = at_level-Continued k 1 off v.orderly v.runs code in
        let (k', run, l) =
          sleep_lem (at_level k 1 off) c.system (ap (λ d. d.preempt_level) (self off)) busy in
        (
          sleeps,
          record s { kernel = k'; uart_waiter = some k.current },
          turn_lem
              ∙ ap (popped_code masked k.eflags) (popb-empty s.uart_cbuf there)
              ∙ sleep_code k' busy run,
          waiting alone there refl (
              subst
                (λ d.
                  Left (at_level k 1 off) (record d { state = sleeping; point = after_sleep off })
                    k')
                (self off) l),
        )
    alone_lem busy alone (x ∷ xs) there =
        let (b', pop, rest) = popb-first s.uart_cbuf x xs there in
        let (k', run, back) = back_lem in
        (
          byte x,
          record s { uart_cbuf = b'; kernel = k' },
          turn_lem ∙ ap (popped_code masked s.kernel.eflags) pop ∙ end_lem k' b' (byte x) run,
          taken alone there rest alone back,
        )

    waiter_lem :
        s.kernel.current ≢ s.kernel.idle
        → (w : Option ℕ) → s.uart_waiter ≡ w
        → (r : ReadResult) × (s' : Uart) × (waiter_code s masked w ≡ ok (r, s')) × Read s r s'
    unfolding waiter_code masked
    waiter_lem busy (some w) there =
        let (k', run, back) = back_lem in
        (
          error error_busy,
          record s { kernel = k' },
          end_lem k' s.uart_cbuf (error error_busy) run,
          refused there back refl,
        )
    waiter_lem busy none there = alone_lem busy there (bytes s.uart_cbuf) refl

  -- In a system in order, `uart_read` by a thread in its own code, with preemption enabled
  -- and not the idle one, fails no assertion. If there is another reader, it returns
  -- ERROR_BUSY and changes nothing of the buffer; else it takes the first byte out of the
  -- buffer and returns that, with the flags of the processor as they were in both cases; and
  -- on an empty buffer it records the thread as the waiter, and puts it to sleep with
  -- interrupts off.
  pub read_lem :
      (s : Uart)
      → IsSystem s.kernel
      → (s.kernel.threads s.kernel.current).point ≡ in_code
      → (s.kernel.threads s.kernel.current).preempt_level ≡ 0
      → s.kernel.current ≢ s.kernel.idle
      → (r : ReadResult) × (s' : Uart) × (uart_read s ≡ ok (r, s')) × Read s r s'
  read_lem s v code level busy =
      let (r, s', run, done) = waiter_lem s v code level busy s.uart_waiter refl in
      (r, s', read_code s v code level ∙ run, done)
