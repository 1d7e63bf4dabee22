-- ===== src/Printf.antt =====
-- src/printf.c and src/panic.c: formatted output on the serial port, and the end of the system.
use x.Base.{ℕ, zero, suc, ◌+◌, ◌%◌, List, [], ◌∷◌, ◌==◌, if◌then◌else◌}
use x.Base.Outcome.{Outcome, ok, undefined, ◌>>=◌}
use x.LinkedList.{LinkedList}
use x.Cpu.Flags.{cpu_intr_disable, cpu_intr_save, cpu_intr_restore}
use x.Thread.State.{thread_preempt_disable}
use x.Thread.Sched.{thread_preempt_enable}
use x.Uart.{ByteBuffer, Uart, uart_write}
pub mod Output
pub mod Panic
pub mod Examples

-- `PRINTF_BUFFER_SIZE`
abbrev pub printf_buffer_size : ℕ
printf_buffer_size = 1024

-- "\npanic: " and "\n"
abbrev pub panic_prefix : List ℕ
panic_prefix = 10 ∷ 112 ∷ 97 ∷ 110 ∷ 105 ∷ 99 ∷ 58 ∷ 32 ∷ []

abbrev pub newline : List ℕ
newline = 10 ∷ []

module _ ⦃lib : LinkedList⦄ ⦃buf : ByteBuffer⦄ where
  -- The serial port, and the static buffer by its index.
  pub record Console : Type 0 where
    pub uart : Uart
    pub printf_buffer : ℕ → ℕ

  -- The loop of `vprintf`, from an index on. It runs on fuel, and is undefined where that is used up:
  -- with the buffer's size for fuel, where the loop would leave the buffer.
  unfoldable pub send_loop : ℕ → (ℕ → ℕ) → ℕ → Uart → Outcome Uart
  send_loop zero buffer ptr u = undefined
  send_loop (suc fuel) buffer ptr u =
      let rest = send_loop fuel buffer (ptr + 1) (uart_write u (buffer ptr % 256)) in
      if buffer ptr == 0 then ok u else rest

  -- `vsnprintf` is copied from librbraun, and so a parameter: from the bytes of a buffer, its size, a
  -- format and its arguments, the value that it returns and the bytes that it leaves.
  module _ {Args : Type 0} (vsnprintf : (ℕ → ℕ) → ℕ → List ℕ → Args → ℕ × (ℕ → ℕ)) where
    unfoldable pub vprintf : Console → List ℕ → Args → Outcome (ℕ × Console)
    vprintf s format ap = do
      k ← thread_preempt_disable s.uart.kernel
      let (eflags, off) = cpu_intr_save k.eflags
      let (length, buffer) = vsnprintf s.printf_buffer printf_buffer_size format ap
      u ←
          send_loop printf_buffer_size buffer 0
            (record s.uart { kernel = record k { eflags = off } })
      k ←
          thread_preempt_enable
            (record u.kernel { eflags = cpu_intr_restore u.kernel.eflags eflags })
      ok (length, record { uart = record u { kernel = k }; printf_buffer = buffer })

    unfoldable pub printf : Console → List ℕ → Args → Outcome (ℕ × Console)
    printf s format args = do (length, s) ← vprintf s format args; ok (length, s)

    -- Up to the call of `cpu_halt`, which never returns; with the arguments of a format that has none.
    unfoldable pub panic : Args → Console → List ℕ → Args → Outcome Console
    panic no_args s format args = do
      k ← thread_preempt_disable s.uart.kernel
      let off = record k { eflags = cpu_intr_disable k.eflags }
      (length, s) ← printf (record s { uart = record s.uart { kernel = off } }) panic_prefix no_args
      (length, s) ← vprintf s format args
      (length, s) ← printf s newline no_args
      ok s
