-- ===== src/Cpu/Interrupt.antt =====
-- The handling of interrupts in src/cpu.c, from `cpu_intr_main` on.
use x.Base.{
  ℕ, ◌+◌, ◌-◌, ◌<◌, ◌≡◌, true, false, not, none, some, List, [], ◌∷◌, ltb, ltb_lt, ltb_le, arith,
}
use x.Base.Outcome.{Outcome, ok, ◌>>=◌, ◌>>◌, assert}
use x.LinkedList.{LinkedList}
use x.Cpu.Flags.{cpu_intr_enabled}
use x.Cpu.Tables.{Processor, cpu_lookup_irq_handler}
use x.I8259.{Pics, i8259_irq_eoi}
use x.I8259.Handle.{irq_eoi_lem}
use x.Thread.State.{Kernel, thread_preempt_disable}
use x.Thread.Sched.{thread_preempt_enable}
use x.Uart.{ByteBuffer}
use x.Printf.{Console, printf}

-- "cpu: error: unhandled interrupt\n" and "cpu: error: invalid handler for irq %u\n"
abbrev unhandled_interrupt : List ℕ
unhandled_interrupt =
    99 ∷ 112 ∷ 117 ∷ 58 ∷ 32 ∷ 101 ∷ 114 ∷ 114 ∷ 111 ∷ 114 ∷ 58 ∷ 32 ∷ 117 ∷ 110 ∷ 104 ∷ 97 ∷ 110
    ∷ 100 ∷ 108 ∷ 101 ∷ 100 ∷ 32 ∷ 105 ∷ 110 ∷ 116 ∷ 101 ∷ 114 ∷ 114 ∷ 117 ∷ 112 ∷ 116 ∷ 10 ∷ []

abbrev invalid_handler : List ℕ
invalid_handler =
    99 ∷ 112 ∷ 117 ∷ 58 ∷ 32 ∷ 101 ∷ 114 ∷ 114 ∷ 111 ∷ 114 ∷ 58 ∷ 32 ∷ 105 ∷ 110 ∷ 118 ∷ 97 ∷ 108
    ∷ 105 ∷ 100 ∷ 32 ∷ 104 ∷ 97 ∷ 110 ∷ 100 ∷ 108 ∷ 101 ∷ 114 ∷ 32 ∷ 102 ∷ 111 ∷ 114 ∷ 32 ∷ 105
    ∷ 114 ∷ 113 ∷ 32 ∷ 37 ∷ 117 ∷ 10 ∷ []

module _ ⦃lib : LinkedList⦄ ⦃buf : ByteBuffer⦄ where
  -- The console in another state of the threads.
  abbrev pub on_kernel : Console → Kernel → Console
  on_kernel s k = record s { uart = record s.uart { kernel = k } }

  -- The call of a handler's function: a parameter.
  abbrev pub Call : Type 0
  Call = ℕ → ℕ → Console → Processor → Outcome (Console × Processor)

  -- `vsnprintf` as in Printf; `one_arg` makes the arguments of a format with one number.
  module _ {Args : Type 0} (vsnprintf : (ℕ → ℕ) → ℕ → List ℕ → Args → ℕ × (ℕ → ℕ)) where
    -- Up to the call of `cpu_halt`, which never returns; with the arguments of a format that has none.
    pub cpu_default_intr_handler : Args → Console → Outcome Console
    cpu_default_intr_handler no_args s = do
      (length, s) ← printf vsnprintf s unhandled_interrupt no_args
      ok s

    -- The body of `cpu_intr_main` between the calls on preemption.
    pub dispatch : (ℕ → Args) → Call → Console → Processor → ℕ → Outcome (Console × Processor)
    dispatch one_arg call s c vector = elim (ltb vector 32) [
      | true ↦ ok (s, c)
      | false ↦ do
        let irq = vector - 32
        pics ← i8259_irq_eoi s.uart.kernel.eflags c.pics irq
        entry ← cpu_lookup_irq_handler irq
        let c' = record c { pics = pics }
        elim (c.irq_handlers entry).fn [
          | none ↦ do (length, s) ← printf vsnprintf s invalid_handler (one_arg irq); ok (s, c')
          | some fn ↦ call fn (c.irq_handlers entry).arg s c'
        ]
    ]

    unfoldable pub cpu_intr_main :
        (ℕ → Args) → Call → Console → Processor → ℕ → Outcome (Console × Processor)
    cpu_intr_main one_arg call s c vector = do
      assert (not (cpu_intr_enabled s.uart.kernel.eflags))
      k ← thread_preempt_disable s.uart.kernel
      (s, c) ← dispatch one_arg call (on_kernel s k) c vector
      k ← thread_preempt_enable s.uart.kernel
      ok (on_kernel s k, c)

    -- With interrupts off and controller 0 alone the master, an interrupt from 32 to 47 that has a
    -- handler is acknowledged, and then its handler is called with its argument.
    pub dispatch_lem :
        (one_arg : ℕ → Args) (call : Call) (s : Console) (c : Processor) (irq fn : ℕ)
        → cpu_intr_enabled s.uart.kernel.eflags ≡ false
        → (c.pics.pics 0).master ≡ true
        → (c.pics.pics 1).master ≡ false
        → irq < 16
        → (c.irq_handlers irq).fn ≡ some fn
        → (pics : Pics) × (i8259_irq_eoi s.uart.kernel.eflags c.pics irq ≡ ok pics)
          × (dispatch one_arg call s c (32 + irq)
              ≡ call fn (c.irq_handlers irq).arg s (record c { pics = pics }))
    unfolding dispatch cpu_lookup_irq_handler
    dispatch_lem one_arg call s c irq fn off master slave lt has =
        let code = irq_eoi_lem s.uart.kernel.eflags c.pics irq off master slave lt in
        let number : 32 + irq - 32 ≡ irq = omega arith in
        (
          _,
          code,
          rw (ltb_le (32 + irq) 32 (omega arith), number, code, ltb_lt irq 16 lt, has, dispatch),
        )
