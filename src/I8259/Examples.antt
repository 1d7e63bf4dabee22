-- ===== src/I8259/Examples.antt =====
-- The theorems on src/i8259.c at the controllers as they are initialised.
use x.Base.{ℕ, ◌≡◌, refl, false, [], ◌∷◌, arith, List, ltb, if◌then◌else◌, true}
use x.Base.Outcome.{Outcome, ok, panic, undefined}
use x.Cpu.Flags.{cpu_intr_enabled}
use x.I8259.{
  Pics, initial, io_write, i8259_get_pic, i8259_pic_write_cmd, i8259_pic_write_data,
  i8259_pic_apply_imr, clear_bit, set_imr, i8259_pic_enable_irq, i8259_setup, i8259_irq_enable,
  i8259_irq_disable, i8259_irq_eoi,
}
use x.I8259.Handle.{IsMasked, irq_mask_lem, irq_invalid_lem}

abbrev wired : Pics
wired = record {
  pics = λ id.
      if ltb id 1
      then record { cmd_port = 0x20; data_port = 0x21; imr = 0xff; master = true }
      else record { cmd_port = 0xa0; data_port = 0xa1; imr = 0xff; master = false };
  output = [];
}

irq_mask_lem_example :
    ((p' : Pics) × (i8259_irq_enable wired 12 ≡ ok p') × IsMasked wired 12 0 p')
    × ((p' : Pics) × (i8259_irq_disable wired 12 ≡ ok p') × IsMasked wired 12 1 p')
irq_mask_lem_example = irq_mask_lem wired 12 (omega arith)

interrupts_off : cpu_intr_enabled 2 ≡ false
unfolding cpu_intr_enabled
interrupts_off = refl

irq_invalid_lem_example :
    (i8259_irq_enable wired 16 ≡ panic)
    × (i8259_irq_disable wired 16 ≡ panic)
    × (i8259_irq_eoi 2 wired 16 ≡ undefined)
irq_invalid_lem_example = irq_invalid_lem 2 wired 16 interrupts_off (omega arith)

sent : Outcome Pics → List (ℕ × ℕ)
sent (ok p) = p.output
sent _ = []

-- The bytes of the initialisation, the last one first: only the cascade is left unmasked.
setup_run :
    sent (i8259_setup initial)
    ≡ (0xa1, 0xff)
      ∷ (0x21, 0xfb)
      ∷ (0x21, 0xfb)
      ∷ (0xa1, 1)
      ∷ (0x21, 1)
      ∷ (0xa1, 2)
      ∷ (0x21, 4)
      ∷ (0xa1, 40)
      ∷ (0x21, 32)
      ∷ (0xa0, 0x11)
      ∷ (0x20, 0x11)
      ∷ []
unfolding sent initial io_write i8259_get_pic i8259_pic_write_cmd i8259_pic_write_data
    i8259_pic_apply_imr clear_bit set_imr i8259_pic_enable_irq i8259_setup
setup_run = refl
