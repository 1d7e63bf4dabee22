-- ===== src/Cpu/Tables/Start.antt =====
-- `cpu_setup_gdt` of src/cpu.c passes its assertions.
use x.Base.{ℕ, ◌≡◌, refl}
use x.Base.Outcome.{ok}
use x.Cpu.Tables.{Processor, cpu_get_gdt_entry, cpu_pseudo_desc_init, cpu_setup_gdt}

pub setup_gdt_lem : (addr : ℕ) (c : Processor) → (c' : Processor) × (cpu_setup_gdt addr c ≡ ok c')
unfolding cpu_setup_gdt cpu_get_gdt_entry cpu_pseudo_desc_init
setup_gdt_lem addr c = (_, refl)
