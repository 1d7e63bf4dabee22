-- ===== src/I8259.antt =====
-- src/i8259.c: the two interrupt controllers, their masks, and the bytes written to their ports.
pub mod Masks
pub mod Handle
pub mod Start
mod Examples
use x.Base.{
  ℕ, ◌+◌, ◌-◌, ◌*◌, ◌/◌, ◌%◌, ◌^◌, Bool, true, false, not, Option, none, some, List, [], ◌∷◌, ◌++◌,
  ltb, ◌==◌, if◌then◌else◌, update,
}
use x.Base.Outcome.{Outcome, ok, undefined, ◌>>=◌, ◌>>◌, assert}
use x.Cpu.Flags.{cpu_intr_enabled}

abbrev pub i8259_nr_irqs : ℕ
i8259_nr_irqs = 8

abbrev pub i8259_nr_pics : ℕ
i8259_nr_pics = 2

abbrev pub i8259_irq_cascade : ℕ
i8259_irq_cascade = 2

abbrev pub i8259_ocw2_eoi : ℕ
i8259_ocw2_eoi = 0x20

-- `CPU_IDT_VECT_PIC_MASTER` and `CPU_IDT_VECT_PIC_SLAVE` of src/cpu.h
abbrev pub cpu_idt_vect_pic_master : ℕ
cpu_idt_vect_pic_master = 32

abbrev pub cpu_idt_vect_pic_slave : ℕ
cpu_idt_vect_pic_slave = 40

-- `struct i8259_pic`
pub record Pic : Type 0 where
  pub cmd_port : ℕ
  pub data_port : ℕ
  pub imr : ℕ
  pub master : Bool

-- The controllers by their number, and what `io_write` sent: ports and bytes, the last one first.
pub record Pics : Type 0 where
  pub pics : ℕ → Pic
  pub output : List (ℕ × ℕ)

pub initial : Pics
initial = record {
  pics = λ id.
      if id == 0
      then record { cmd_port = 0x20; data_port = 0x21; imr = 0xff; master = true }
      else record { cmd_port = 0xa0; data_port = 0xa1; imr = 0xff; master = false };
  output = [];
}

pub io_write : Pics → ℕ → ℕ → Pics
io_write p port byte = record p { output = (port, byte) ∷ p.output }

pub i8259_get_pic : ℕ → Outcome ℕ
i8259_get_pic id = do assert (ltb id i8259_nr_pics); ok id

-- The controller and the number of the interrupt there, or `none` for ERROR_INVAL. `wants_local` says
-- that `local_irq` is not NULL; the code writes through it in any case where the number is invalid.
pub i8259_convert_global_irq : ℕ → Bool → Outcome (Option (ℕ × ℕ))
i8259_convert_global_irq irq wants_local = elim (ltb irq i8259_nr_irqs) [
  | true ↦ do pic ← i8259_get_pic 0; ok (some (pic, irq))
  | false ↦ elim (ltb irq (i8259_nr_irqs * i8259_nr_pics)) [
    | true ↦ do pic ← i8259_get_pic 1; ok (some (pic, irq - i8259_nr_irqs))
    | false ↦ if wants_local then ok none else undefined
  ]
]

pub i8259_pic_write_cmd : Pics → ℕ → ℕ → Pics
i8259_pic_write_cmd p pic byte = io_write p (p.pics pic).cmd_port byte

pub i8259_pic_write_data : Pics → ℕ → ℕ → Pics
i8259_pic_write_data p pic byte = io_write p (p.pics pic).data_port byte

pub i8259_pic_apply_imr : Pics → ℕ → Pics
i8259_pic_apply_imr p pic = io_write p (p.pics pic).data_port (p.pics pic).imr

-- `imr & ~(1 << irq)` and `imr | (1 << irq)`
pub clear_bit : ℕ → ℕ → ℕ
clear_bit imr irq = imr - imr / 2 ^ irq % 2 * 2 ^ irq

pub set_bit : ℕ → ℕ → ℕ
set_bit imr irq = imr - imr / 2 ^ irq % 2 * 2 ^ irq + 2 ^ irq

pub set_imr : Pics → ℕ → ℕ → Pics
set_imr p pic imr = record p { pics = update p.pics pic (record (p.pics pic) { imr = imr }) }

pub i8259_pic_enable_irq : Pics → ℕ → ℕ → Outcome Pics
i8259_pic_enable_irq p pic irq = do
  assert (ltb irq i8259_nr_irqs)
  ok (i8259_pic_apply_imr (set_imr p pic (clear_bit (p.pics pic).imr irq)) pic)

pub i8259_pic_disable_irq : Pics → ℕ → ℕ → Outcome Pics
i8259_pic_disable_irq p pic irq = do
  assert (ltb irq i8259_nr_irqs)
  ok (i8259_pic_apply_imr (set_imr p pic (set_bit (p.pics pic).imr irq)) pic)

pub i8259_pic_eoi : Pics → ℕ → Pics
i8259_pic_eoi p pic = io_write p (p.pics pic).cmd_port i8259_ocw2_eoi

pub i8259_setup : Pics → Outcome Pics
i8259_setup p = do
  master ← i8259_get_pic 0
  slave ← i8259_get_pic 1
  let p = i8259_pic_write_cmd p master 0x11
  let p = i8259_pic_write_cmd p slave 0x11
  let p = i8259_pic_write_data p master cpu_idt_vect_pic_master
  let p = i8259_pic_write_data p slave cpu_idt_vect_pic_slave
  let p = i8259_pic_write_data p master 4
  let p = i8259_pic_write_data p slave i8259_irq_cascade
  let p = i8259_pic_write_data p master 1
  let p = i8259_pic_write_data p slave 1
  p ← i8259_pic_enable_irq p master i8259_irq_cascade
  ok (i8259_pic_apply_imr (i8259_pic_apply_imr p master) slave)

-- `assert(!error)`, and what the conversion stored
pub valid : Option (ℕ × ℕ) → Outcome (ℕ × ℕ)
valid none = assert false >> undefined
valid (some place) = ok place

pub i8259_irq_enable : Pics → ℕ → Outcome Pics
i8259_irq_enable p irq = do
  place ← i8259_convert_global_irq irq true
  (pic, local_irq) ← valid place
  i8259_pic_enable_irq p pic local_irq

pub i8259_irq_disable : Pics → ℕ → Outcome Pics
i8259_irq_disable p irq = do
  place ← i8259_convert_global_irq irq true
  (pic, local_irq) ← valid place
  i8259_pic_disable_irq p pic local_irq

pub i8259_irq_eoi : ℕ → Pics → ℕ → Outcome Pics
i8259_irq_eoi eflags p irq = do
  assert (not (cpu_intr_enabled eflags))
  place ← i8259_convert_global_irq irq false
  (pic, _) ← valid place
  p ← elim (p.pics pic).master [
    | true ↦ ok p
    | false ↦ do master ← i8259_get_pic 0; ok (i8259_pic_eoi p master)
  ]
  ok (i8259_pic_eoi p pic)
