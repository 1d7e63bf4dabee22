-- ===== src/Cpu/Tables.antt =====
-- The descriptor tables and the handlers of interrupts in src/cpu.c.
pub mod Handlers
pub mod Start
mod Examples
use x.Base.{
  ℕ, zero, suc, ◌+◌, ◌-◌, ◌*◌, ◌/◌, ◌%◌, Bool, true, false, not, Option, none, some, ltb, leb, ◌==◌,
  if◌then◌else◌, update,
}
use x.Base.Word.{add32, sub32}
use x.Base.Outcome.{Outcome, ok, panic, ◌>>=◌, ◌>>◌, assert}
use x.LinkedList.{LinkedList}
use x.Cpu.Flags.{cpu_intr_enabled}
use x.I8259.{Pics, i8259_irq_enable, i8259_irq_eoi}
use x.Thread.State.{Kernel, thread_preempt_disable}
use x.Thread.Sched.{thread_preempt_enable}

abbrev pub cpu_gdt_size : ℕ
cpu_gdt_size = 3

abbrev pub cpu_gdt_sel_null : ℕ
cpu_gdt_sel_null = 0x00

abbrev pub cpu_gdt_sel_code : ℕ
cpu_gdt_sel_code = 0x08

abbrev pub cpu_gdt_sel_data : ℕ
cpu_gdt_sel_data = 0x10

abbrev cpu_seg_data_rw : ℕ
cpu_seg_data_rw = 0x200

abbrev cpu_seg_code_rx : ℕ
cpu_seg_code_rx = 0x900

abbrev cpu_seg_s : ℕ
cpu_seg_s = 0x1000

abbrev cpu_seg_p : ℕ
cpu_seg_p = 0x8000

abbrev cpu_seg_db : ℕ
cpu_seg_db = 0x400000

abbrev cpu_seg_g : ℕ
cpu_seg_g = 0x800000

abbrev pub cpu_idt_size : ℕ
cpu_idt_size = 256

abbrev pub nr_irq_handlers : ℕ
nr_irq_handlers = 16

-- `struct cpu_seg_desc`, `struct cpu_pseudo_desc` and `struct cpu_irq_handler`
pub record SegDesc : Type 0 where
  pub low : ℕ
  pub high : ℕ

pub record PseudoDesc : Type 0 where
  pub limit : ℕ
  pub base : ℕ

pub record IrqHandler : Type 0 where
  pub fn : Option ℕ
  pub arg : ℕ

-- The tables, the registers that `cpu_load_gdt` and `cpu_load_idt` set, and the interrupt controllers.
pub record Processor : Type 0 where
  pub gdt : ℕ → SegDesc
  pub idt : ℕ → SegDesc
  pub irq_handlers : ℕ → IrqHandler
  pub gdtr : Option PseudoDesc
  pub idtr : Option PseudoDesc
  pub pics : Pics

pub cpu_seg_desc_init_null : SegDesc
cpu_seg_desc_init_null = record { low = 0; high = 0 }

-- The bits of each sum are apart: G, DB, the limit, P, S, and the access rights.
pub cpu_seg_desc_init_code : SegDesc
cpu_seg_desc_init_code = record {
  low = 0xffff;
  high = cpu_seg_g + cpu_seg_db + 0xf * 65536 + cpu_seg_p + cpu_seg_s + cpu_seg_code_rx;
}

pub cpu_seg_desc_init_data : SegDesc
cpu_seg_desc_init_data = record {
  low = 0xffff;
  high = cpu_seg_g + cpu_seg_db + 0xf * 65536 + cpu_seg_p + cpu_seg_s + cpu_seg_data_rw;
}

pub cpu_seg_desc_init_intr_gate : ℕ → SegDesc
cpu_seg_desc_init_intr_gate handler = record {
  low = cpu_gdt_sel_code * 65536 + handler % 65536;
  high = handler - handler % 65536 + cpu_seg_p + 0xe00;
}

pub cpu_pseudo_desc_init : ℕ → ℕ → Outcome PseudoDesc
cpu_pseudo_desc_init addr size = do
  assert (leb size 0x10000)
  ok (record { limit = sub32 size 1 % 65536; base = addr })

pub cpu_get_gdt_entry : ℕ → Outcome ℕ
cpu_get_gdt_entry selector = do let index = selector / 8; assert (ltb index cpu_gdt_size); ok index

pub cpu_irq_handler_init : IrqHandler → IrqHandler
cpu_irq_handler_init handler = record handler { fn = none }

unfoldable pub cpu_lookup_irq_handler : ℕ → Outcome ℕ
cpu_lookup_irq_handler irq = do assert (ltb irq nr_irq_handlers); ok irq

pub cpu_irq_handler_set_fn : IrqHandler → ℕ → ℕ → Outcome IrqHandler
cpu_irq_handler_set_fn handler fn arg = elim handler.fn [
  | none ↦ ok (record handler { fn = some fn; arg = arg })
  | some old ↦ assert false >> ok handler
]

-- `addr` is the address of the table.
pub cpu_setup_gdt : ℕ → Processor → Outcome Processor
cpu_setup_gdt addr c = do
  null ← cpu_get_gdt_entry cpu_gdt_sel_null
  code ← cpu_get_gdt_entry cpu_gdt_sel_code
  data_entry ← cpu_get_gdt_entry cpu_gdt_sel_data
  let gdt = update c.gdt null cpu_seg_desc_init_null
  let gdt = update gdt code cpu_seg_desc_init_code
  let gdt = update gdt data_entry cpu_seg_desc_init_data
  desc ← cpu_pseudo_desc_init addr (cpu_gdt_size * 8)
  ok (record c { gdt = gdt; gdtr = some desc })

-- The loops, over the first `n` entries.
pub init_handlers : ℕ → (ℕ → IrqHandler) → ℕ → IrqHandler
init_handlers zero table = table
init_handlers (suc i) table =
    let rest = init_handlers i table in update rest i (cpu_irq_handler_init (rest i))

pub init_gates : ℕ → ℕ → (ℕ → SegDesc) → ℕ → SegDesc
init_gates zero handler table = table
init_gates (suc i) handler table =
    let rest = init_gates i handler table in update rest i (cpu_seg_desc_init_intr_gate handler)

-- The gates of the vectors from 32 on, `n` of them, in the order of the code.
pub init_isrs : ℕ → (ℕ → ℕ) → (ℕ → SegDesc) → ℕ → SegDesc
init_isrs zero isr table = table
init_isrs (suc i) isr table =
    let rest = init_isrs i isr table in
    update rest (32 + i) (cpu_seg_desc_init_intr_gate (isr (32 + i)))

-- The addresses of the table, of `cpu_default_intr_handler`, and of the service routines by vector; 13 is
-- the vector of general protection faults.
pub cpu_setup_idt : ℕ → ℕ → (ℕ → ℕ) → Processor → Outcome Processor
cpu_setup_idt addr default_handler isr c = do
  let handlers = init_handlers nr_irq_handlers c.irq_handlers
  let idt = init_gates cpu_idt_size default_handler c.idt
  let idt = update idt 13 (cpu_seg_desc_init_intr_gate (isr 13))
  let idt = init_isrs 16 isr idt
  desc ← cpu_pseudo_desc_init addr (cpu_idt_size * 8)
  ok (record c { irq_handlers = handlers; idt = idt; idtr = some desc })

pub cpu_irq_register : Processor → ℕ → ℕ → ℕ → Outcome Processor
cpu_irq_register c irq fn arg = do
  entry ← cpu_lookup_irq_handler irq
  handler ← cpu_irq_handler_set_fn (c.irq_handlers entry) fn arg
  pics ← i8259_irq_enable c.pics irq
  ok (record c { irq_handlers = update c.irq_handlers entry handler; pics = pics })
