-- ===== src/I8259/Start.antt =====
-- `i8259_setup` of src/i8259.c passes its assertions.
use x.Base.{◌≡◌, refl}
use x.Base.Outcome.{ok}
use x.I8259.{Pics, i8259_get_pic, i8259_pic_enable_irq, i8259_setup}

pub i8259_setup_lem : (p : Pics) → (p' : Pics) × (i8259_setup p ≡ ok p')
unfolding i8259_setup i8259_get_pic i8259_pic_enable_irq
i8259_setup_lem p = (_, refl)
