-- ===== src/Cpu/Tables/Examples.antt =====
-- The theorems on the tables of src/cpu.c at concrete ones.
use x.Base.{
  ℕ, ◌+◌, ◌*◌, ◌/◌, ◌%◌, ◌<◌, ◌≡◌, refl, true, false, none, some, [], ltb, if◌then◌else◌, arith,
}
use x.Base.Outcome.{Outcome, ok}
use x.Cpu.Tables.{
  Processor, cpu_seg_desc_init_intr_gate, cpu_setup_gdt, cpu_get_gdt_entry, cpu_pseudo_desc_init,
  cpu_seg_desc_init_code, cpu_seg_desc_init_data, cpu_seg_desc_init_null,
}
use x.Cpu.Tables.Handlers.{gate_lem}

abbrev machine : Processor
machine = record {
  gdt = λ i. record { low = 0; high = 0 };
  idt = λ i. record { low = 0; high = 0 };
  irq_handlers = λ i. record { fn = if ltb i 1 then some 0x1234 else none; arg = 7 };
  gdtr = none;
  idtr = none;
  pics = record {
    pics = λ id.
        if ltb id 1
        then record { cmd_port = 0x20; data_port = 0x21; imr = 0xff; master = true }
        else record { cmd_port = 0xa0; data_port = 0xa1; imr = 0xff; master = false };
    output = [];
  };
}

-- a service routine for each vector
abbrev isr : ℕ → ℕ
isr v = 0x100000 + 16 * v

gate_lem_example :
    ((cpu_seg_desc_init_intr_gate 0x101234).low % 65536
        + (cpu_seg_desc_init_intr_gate 0x101234).high / 65536 * 65536
      ≡ 0x101234)
    × ((cpu_seg_desc_init_intr_gate 0x101234).low / 65536 ≡ 8)
    × ((cpu_seg_desc_init_intr_gate 0x101234).low < 4294967296)
    × ((cpu_seg_desc_init_intr_gate 0x101234).high < 4294967296)
gate_lem_example = gate_lem 0x101234 (omega arith)

gdt_words : Outcome Processor → ℕ × ℕ × ℕ
gdt_words (ok c) = ((c.gdt 0).high, (c.gdt 1).high, (c.gdt 2).high)
gdt_words _ = (0, 0, 0)

-- The access rights of the null, code and data segments.
gdt_run : gdt_words (cpu_setup_gdt 0x10000 machine) ≡ (0, 0xcf9900, 0xcf9200)
unfolding gdt_words cpu_setup_gdt cpu_get_gdt_entry cpu_pseudo_desc_init cpu_seg_desc_init_code
    cpu_seg_desc_init_data cpu_seg_desc_init_null
gdt_run = refl
