-- ===== src/Cpu/Flags.antt =====
-- The interrupt flag of EFLAGS, as src/cpu.c reads and changes it. Assembly code (cpu_asm.S) moves the
-- register to and from memory, and sets or clears the flag by `sti` and `cli`.
use x.Base.{ℕ, ◌+◌, ◌-◌, ◌*◌, ◌/◌, ◌%◌, ◌≡◌, refl, Bool, true, false, not, arith, ◌==◌}

-- bit 9, `CPU_EFL_IF`
abbrev pub cpu_efl_if : ℕ
cpu_efl_if = 512

unfoldable pub cpu_intr_disable : ℕ → ℕ
cpu_intr_disable eflags = eflags - eflags / 512 % 2 * 512

unfoldable pub cpu_intr_enable : ℕ → ℕ
cpu_intr_enable eflags = eflags - eflags / 512 % 2 * 512 + 512

unfoldable pub cpu_intr_enabled : ℕ → Bool
cpu_intr_enabled eflags = not (eflags / 512 % 2 == 0)

-- The old flags, and the new ones.
unfoldable pub cpu_intr_save : ℕ → ℕ × ℕ
cpu_intr_save eflags = (eflags, cpu_intr_disable eflags)

-- The flags before, and those to go back to.
unfoldable pub cpu_intr_restore : ℕ → ℕ → ℕ
cpu_intr_restore now eflags = eflags

pub enabled-disable : (eflags : ℕ) → cpu_intr_enabled (cpu_intr_disable eflags) ≡ false
unfolding cpu_intr_enabled cpu_intr_disable
enabled-disable eflags = ground arith

pub enabled-enable : (eflags : ℕ) → cpu_intr_enabled (cpu_intr_enable eflags) ≡ true
unfolding cpu_intr_enabled cpu_intr_enable
enabled-enable eflags = ground arith

-- After `cpu_intr_save`, interrupts are off; `cpu_intr_restore` of what it gave brings back the flags.
pub restore-save :
    (eflags : ℕ)
    → (cpu_intr_enabled (cpu_intr_save eflags).1 ≡ false)
      × (cpu_intr_restore (cpu_intr_save eflags).1 (cpu_intr_save eflags).0 ≡ eflags)
unfolding cpu_intr_save cpu_intr_restore
restore-save eflags = (enabled-disable eflags, refl)
