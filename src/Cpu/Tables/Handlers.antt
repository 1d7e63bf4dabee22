-- ===== src/Cpu/Tables/Handlers.antt =====
-- What src/cpu.c puts into its tables, and which handler an interrupt reaches.
use x.Base.{
  ℕ, zero, suc, ◌+◌, ◌*◌, ◌/◌, ◌%◌, ◌<◌, ◌≡◌, ◌≢◌, refl, ap, ◌∙◌, ◌&&◌, none, some, ltb, leb,
  ltb_lt, ◌==◌, ==_eq, ==_ne, ==_iff, Bool-cases, inl, inr, if◌then◌else◌, update, arith,
}
use x.Base.Outcome.{ok}
use x.Cpu.Tables.{
  SegDesc, IrqHandler, Processor, cpu_seg_desc_init_intr_gate, cpu_pseudo_desc_init,
  cpu_irq_handler_init, cpu_lookup_irq_handler, cpu_irq_handler_set_fn, init_handlers, init_gates,
  init_isrs, cpu_setup_idt, cpu_irq_register,
}
use x.I8259.Handle.{IsMasked, irq_mask_lem}

-- A gate holds the address of its handler in two halves, and the selector of the code segment; both of
-- its words fit into 32 bits.
pub gate_lem :
    (handler : ℕ)
    → handler < 4294967296
    → let d = cpu_seg_desc_init_intr_gate handler in
      (d.low % 65536 + d.high / 65536 * 65536 ≡ handler)
      × (d.low / 65536 ≡ 8)
      × (d.low < 4294967296)
      × (d.high < 4294967296)
unfolding cpu_seg_desc_init_intr_gate
gate_lem handler lt = (omega arith, omega arith, omega arith, omega arith)

handlers_lem :
    (n : ℕ) (table : ℕ → IrqHandler) (i : ℕ) → i < n → (init_handlers n table i).fn ≡ none
unfolding init_handlers cpu_irq_handler_init
handlers_lem zero table i lt = absurd (omega arith)
handlers_lem (suc n) table i lt = elim (Bool-cases (n == i)) [
  | inl same ↦ rw same refl
  | inr other ↦ rw other (handlers_lem n table i (ground arith))
]

gates_lem :
    (n handler : ℕ) (table : ℕ → SegDesc) (i : ℕ)
    → i < n
    → init_gates n handler table i ≡ cpu_seg_desc_init_intr_gate handler
unfolding init_gates
gates_lem zero handler table i lt = absurd (omega arith)
gates_lem (suc n) handler table i lt = elim (Bool-cases (n == i)) [
  | inl same ↦ rw same refl
  | inr other ↦ rw other (gates_lem n handler table i (ground arith))
]

isrs_lem :
    (n : ℕ) (isr : ℕ → ℕ) (table : ℕ → SegDesc) (v : ℕ)
    → init_isrs n isr table v
      ≡ (if leb 32 v && ltb v (32 + n) then cpu_seg_desc_init_intr_gate (isr v) else table v)
unfolding init_isrs
isrs_lem zero isr table v = ground arith
isrs_lem (suc n) isr table v = elim (Bool-cases ((32 + n) == v)) [
  | inl same ↦
      let e : 32 + n ≡ v = (==_iff (32 + n) v).0 same in rw (same, ap isr e) (ground (arith, e))
  | inr other ↦ rw (other, isrs_lem n isr table v) (ground (arith, other))
]

-- The handler that the table names for a vector.
abbrev pub handler_of : ℕ → (ℕ → ℕ) → ℕ → ℕ
handler_of default_handler isr v =
    if leb 32 v && ltb v 48 then isr v else if 13 == v then isr 13 else default_handler

-- `cpu_setup_idt` returns: each of the 256 vectors then has a gate, to its service routine if it has one
-- and else to the default handler, and no interrupt has a handler.
pub setup_idt_lem :
    (addr default_handler : ℕ) (isr : ℕ → ℕ) (c : Processor)
    → (c' : Processor) × (cpu_setup_idt addr default_handler isr c ≡ ok c')
      × ((v : ℕ)
          → v < 256
          → c'.idt v ≡ cpu_seg_desc_init_intr_gate (handler_of default_handler isr v))
      × ((irq : ℕ) → irq < 16 → (c'.irq_handlers irq).fn ≡ none)
      × (c'.idtr ≡ some (record { limit = 2047; base = addr }))
unfolding cpu_setup_idt cpu_pseudo_desc_init
setup_idt_lem addr default_handler isr c = (
  _,
  refl,
  λ v lt. isrs_lem 16 isr _ v ∙ gate v lt,
  λ irq lt. handlers_lem 16 c.irq_handlers irq lt,
  refl,
)
  where
    gate :
        (v : ℕ)
        → v < 256
        → (if leb 32 v && ltb v 48
            then cpu_seg_desc_init_intr_gate (isr v)
            else update
                (init_gates 256 default_handler c.idt)
                13
                (cpu_seg_desc_init_intr_gate (isr 13))
                v)
          ≡ cpu_seg_desc_init_intr_gate (handler_of default_handler isr v)
    gate v lt = elim (Bool-cases (leb 32 v && ltb v 48)) [
      | inl routine ↦ rw routine refl
      | inr outside ↦ elim (Bool-cases (13 == v)) [
        | inl fault ↦ rw (outside, fault) refl
        | inr other ↦ rw (outside, other) (gates_lem 256 default_handler c.idt v lt)
      ]
    ]

-- `cpu_irq_register` of one of the 16 interrupts that has no handler returns: the interrupt has the
-- handler, the others keep theirs, and the interrupt alone is unmasked.
pub register_lem :
    (c : Processor) (irq fn arg : ℕ)
    → irq < 16
    → (c.irq_handlers irq).fn ≡ none
    → (c' : Processor) × (cpu_irq_register c irq fn arg ≡ ok c')
      × (c'.irq_handlers irq ≡ record { fn = some fn; arg = arg })
      × ((j : ℕ) → irq ≢ j → c'.irq_handlers j ≡ c.irq_handlers j)
      × IsMasked c.pics irq 0 c'.pics
unfolding cpu_irq_register cpu_lookup_irq_handler cpu_irq_handler_set_fn
register_lem c irq fn arg lt free =
    let ((pics, code, masked), _) = irq_mask_lem c.pics irq lt in
    (
      record c {
        irq_handlers = update c.irq_handlers irq (record { fn = some fn; arg = arg });
        pics = pics;
      },
      rw (ltb_lt irq 16 lt, free, code),
      rw (==_eq irq irq refl),
      λ j other. rw (==_ne irq j other),
      masked,
    )
