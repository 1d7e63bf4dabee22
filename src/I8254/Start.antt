-- ===== src/I8254/Start.antt =====
-- `i8254_setup` of src/i8254.c registers its interrupt.
use x.Base.{ℕ, ◌+◌, ◌%◌, ◌/◌, ◌≡◌, ◌≢◌, ap, none, arith}
use x.Base.Outcome.{Outcome, ok, ◌>>=◌}
use x.Cpu.Tables.{Processor}
use x.Cpu.Tables.Handlers.{register_lem}
use x.I8259.{io_write}
use x.I8254.{i8254_initial_count, i8254_setup}

-- The counter is programmed.
abbrev programmed : Processor → Outcome Processor
programmed c =
    let p1 = io_write c.pics 0x43 (0x00 + 0x20 + 0x10 + 0x04 + 0x00) in
    let p2 = io_write p1 0x40 (i8254_initial_count % 256) in
    ok (record c { pics = io_write p2 0x40 (i8254_initial_count / 256) })

pub i8254_setup_lem :
    (c : Processor) (handler : ℕ)
    → (c.irq_handlers 0).fn ≡ none
    → (c' : Processor) × (i8254_setup c handler ≡ ok c')
      × ((irq : ℕ) → 0 ≢ irq → c'.irq_handlers irq ≡ c.irq_handlers irq)
unfolding i8254_setup
i8254_setup_lem c handler free =
    let (c1, code, set, others, masks) = register_lem c 0 handler 0 (omega arith) free in
    (_, ap (λ m. m >>= programmed) code, others)
