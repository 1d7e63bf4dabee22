-- ===== src/I8259/Handle.antt =====
-- Masking and acknowledging interrupts in src/i8259.c.
use x.Base.{
  ℕ, ◌-◌, ◌<◌, ◌≤◌, ◌≡◌, ◌≢◌, refl, ap, ◌∙◌, Bool, true, false, none, some, ◌∷◌, ltb, ltb_lt,
  ltb_le, ◌==◌, ==_eq, ==_ne, ==_iff, if◌then◌else◌, arith, Bool-cases, inl, inr,
}
use x.Base.Outcome.{ok, panic, undefined}
use x.Cpu.Flags.{cpu_intr_enabled}
use x.I8259.{
  Pics, i8259_get_pic, i8259_convert_global_irq, i8259_pic_apply_imr, io_write, set_imr, clear_bit,
  set_bit, i8259_pic_enable_irq, i8259_pic_disable_irq, i8259_pic_eoi, valid, i8259_irq_enable,
  i8259_irq_disable, i8259_irq_eoi,
}
use x.I8259.Masks.{bit, bit-clear_bit, bit-set_bit}

-- The controller of an interrupt, and its number there.
abbrev pub pic_of : ℕ → ℕ
pic_of irq = if ltb irq 8 then 0 else 1

abbrev pub local_of : ℕ → ℕ
local_of irq = if ltb irq 8 then irq else irq - 8

-- 1 if the interrupt is masked.
abbrev pub mask : Pics → ℕ → ℕ
mask p irq = bit (p.pics (pic_of irq)).imr (local_of irq)

convert_lem :
    (irq : ℕ) (wants_local : Bool)
    → irq < 16
    → i8259_convert_global_irq irq wants_local ≡ ok (some (pic_of irq, local_of irq))
unfolding i8259_convert_global_irq i8259_get_pic
convert_lem irq wants_local lt = elim (Bool-cases (ltb irq 8)) [
  | inl low ↦ rw (low, i8259_convert_global_irq)
  | inr high ↦ rw (high, ltb_lt irq 16 lt, i8259_convert_global_irq)
]

local-below : (irq : ℕ) → irq < 16 → local_of irq < 8
local-below irq lt = ground arith

-- The mask register of the controller holds `imr`, and was written to its port.
applied : Pics → ℕ → ℕ → Pics
applied p irq imr = i8259_pic_apply_imr (set_imr p (pic_of irq) imr) (pic_of irq)

-- The mask of one interrupt was set to `value`, and those of the others stay; the new register was
-- written to the data port of its controller.
pub record IsMasked (p : Pics) (irq value : ℕ) (p' : Pics) : Type 0 where
  pub this : mask p' irq ≡ value
  pub others : (j : ℕ) → j < 16 → irq ≢ j → mask p' j ≡ mask p j
  pub sent : p'.output ≡ ((p.pics (pic_of irq)).data_port, (p'.pics (pic_of irq)).imr) ∷ p.output

applied-IsMasked :
    (p : Pics) (irq value imr : ℕ)
    → irq < 16
    → ((j : ℕ)
        → j < 8
        → bit imr j ≡ (if local_of irq == j then value else bit (p.pics (pic_of irq)).imr j))
    → IsMasked p irq value (applied p irq imr)
unfolding applied i8259_pic_apply_imr set_imr io_write
applied-IsMasked p irq value imr lt bits = record {
  this =
      rw (==_eq (pic_of irq) (pic_of irq) refl)
        (bits (local_of irq) (local-below irq lt) ∙ rw (==_eq (local_of irq) (local_of irq) refl));
  others = λ j lj ne. elim (Bool-cases (pic_of irq == pic_of j)) [
    | inl same ↦
        let e : pic_of irq ≡ pic_of j = (==_iff (pic_of irq) (pic_of j)).0 same in
        let apart : local_of irq ≢ local_of j = λ eq. ground (arith, eq, e, ne) in
        rw same (
          bits (local_of j) (local-below j lj)
          ∙ rw (==_ne (local_of irq) (local_of j) apart)
              (ap (λ q. bit (p.pics q).imr (local_of j)) e))
    | inr other ↦ rw other
  ];
  sent = rw (==_eq (pic_of irq) (pic_of irq) refl);
}

-- `i8259_irq_enable` and `i8259_irq_disable` of one of the 16 interrupts return: the one clears the
-- mask of the interrupt, the other sets it. No other interrupt's mask changes, and the new mask
-- register is written to the data port of its controller.
pub irq_mask_lem :
    (p : Pics) (irq : ℕ)
    → irq < 16
    → ((p' : Pics) × (i8259_irq_enable p irq ≡ ok p') × IsMasked p irq 0 p')
      × ((p' : Pics) × (i8259_irq_disable p irq ≡ ok p') × IsMasked p irq 1 p')
unfolding i8259_irq_enable i8259_irq_disable valid i8259_pic_enable_irq i8259_pic_disable_irq
    applied
irq_mask_lem p irq lt =
    let imr = (p.pics (pic_of irq)).imr in
    let code = convert_lem irq true lt in
    let small = ltb_lt (local_of irq) 8 (local-below irq lt) in
    (
      (
        applied p irq (clear_bit imr (local_of irq)),
        rw (code, small),
        applied-IsMasked p irq 0 (clear_bit imr (local_of irq)) lt
            (λ j. bit-clear_bit imr (local_of irq) j (local-below irq lt)),
      ),
      (
        applied p irq (set_bit imr (local_of irq)),
        rw (code, small),
        applied-IsMasked p irq 1 (set_bit imr (local_of irq)) lt
            (λ j. bit-set_bit imr (local_of irq) j (local-below irq lt)),
      ),
    )

-- With interrupts off, and controller 0 alone the master, `i8259_irq_eoi` of one of the 16 interrupts
-- returns, having sent the end of the interrupt to the controller of the interrupt, and to the master
-- before, if that is another one.
pub irq_eoi_lem :
    (eflags : ℕ) (p : Pics) (irq : ℕ)
    → cpu_intr_enabled eflags ≡ false
    → (p.pics 0).master ≡ true
    → (p.pics 1).master ≡ false
    → irq < 16
    → i8259_irq_eoi eflags p irq
      ≡ ok (record p {
        output =
            if ltb irq 8
            then ((p.pics 0).cmd_port, 0x20) ∷ p.output
            else ((p.pics 1).cmd_port, 0x20) ∷ ((p.pics 0).cmd_port, 0x20) ∷ p.output;
      })
unfolding i8259_irq_eoi valid i8259_pic_eoi io_write i8259_get_pic
irq_eoi_lem eflags p irq off master slave lt = elim (Bool-cases (ltb irq 8)) [
  | inl low ↦ rw (off, convert_lem irq false lt, low, master)
  | inr high ↦ rw (off, convert_lem irq false lt, high, slave)
]

convert_invalid :
    (irq : ℕ) (wants_local : Bool)
    → 16 ≤ irq
    → i8259_convert_global_irq irq wants_local ≡ (if wants_local then ok none else undefined)
unfolding i8259_convert_global_irq
convert_invalid irq wants_local le =
    rw (ltb_le irq 8 (omega arith), ltb_le irq 16 le, i8259_convert_global_irq)

-- For a number from 16 on, `i8259_irq_enable` and `i8259_irq_disable` fail their assertion; with
-- interrupts off, `i8259_irq_eoi` writes through a null pointer before its assertion.
pub irq_invalid_lem :
    (eflags : ℕ) (p : Pics) (irq : ℕ)
    → cpu_intr_enabled eflags ≡ false
    → 16 ≤ irq
    → (i8259_irq_enable p irq ≡ panic)
      × (i8259_irq_disable p irq ≡ panic)
      × (i8259_irq_eoi eflags p irq ≡ undefined)
unfolding i8259_irq_enable i8259_irq_disable i8259_irq_eoi valid
irq_invalid_lem eflags p irq off le = (
  rw (convert_invalid irq true le),
  rw (convert_invalid irq true le),
  rw (off, convert_invalid irq false le),
)
