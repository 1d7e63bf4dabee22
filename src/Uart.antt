-- ===== src/Uart.antt =====
-- src/uart.c: the bytes that the serial port receives, and the thread that reads them.
use x.Base.{
  ℕ, not, ◌<◌, ◌≤◌, ◌≡◌, Bool, true, false, Option, none, some, List, [], ◌∷◌, ◌++◌, length, ◌+◌,
  ◌==◌, if◌then◌else◌,
}
use x.Base.Outcome.{Outcome, ok, ◌>>=◌}
use x.LinkedList.{LinkedList}
use x.Cpu.Flags.{cpu_intr_save, cpu_intr_restore}
use x.Cpu.Tables.{Processor, cpu_irq_register}
use x.I8259.{io_write}
use x.Thread.State.{Kernel, thread_self, thread_preempt_disable}
use x.Thread.Sched.{thread_preempt_enable, thread_sleep, thread_wakeup}
use x.Mutex.{error_busy}
pub mod Irq
pub mod Bytes
pub mod Start
pub mod Examples
mod Tests

-- `UART_BUFFER_SIZE`
abbrev pub uart_buffer_size : ℕ
uart_buffer_size = 16

-- `UART_COM1_PORT`, with `UART_REG_DAT` 0
abbrev pub uart_com1_port : ℕ
uart_com1_port = 0x3F8

-- `UART_IRQ`
abbrev uart_irq : ℕ
uart_irq = 4

-- `UART_REG_DIVL`, `UART_REG_IER`, `UART_REG_DIVH` and `UART_REG_LCR`
abbrev uart_reg_divl : ℕ
uart_reg_divl = 0

abbrev uart_reg_ier : ℕ
uart_reg_ier = 1

abbrev uart_reg_divh : ℕ
uart_reg_divh = 1

abbrev uart_reg_lcr : ℕ
uart_reg_lcr = 3

-- The circular buffer of lib/cbuf.h on the 16 bytes of `uart_buffer`. That file is copied from
-- librbraun, so it is a parameter: `bytes` are those from its start to its end. `cbuf_pushb` without
-- erasing fails on a full buffer, `cbuf_popb` on an empty one.
pub record ByteBuffer : Type 1 where
  pub Buffer : Type 0
  pub cbuf_init : Buffer
  pub cbuf_pushb : Buffer → ℕ → Bool → ℕ × Buffer
  pub cbuf_popb : Buffer → Option (ℕ × Buffer)
  pub bytes : Buffer → List ℕ
  pub bytes-init : bytes cbuf_init ≡ []
  pub pushb-room :
      (b : Buffer) (x : ℕ)
      → length (bytes b) < uart_buffer_size
      → ((cbuf_pushb b x false).0 ≡ 0) × (bytes (cbuf_pushb b x false).1 ≡ bytes b ++ (x ∷ []))
  pub pushb-full :
      (b : Buffer) (x : ℕ)
      → uart_buffer_size ≤ length (bytes b)
      → (0 < (cbuf_pushb b x false).0) × ((cbuf_pushb b x false).1 ≡ b)
  pub popb-empty : (b : Buffer) → bytes b ≡ [] → cbuf_popb b ≡ none
  pub popb-first :
      (b : Buffer) (x : ℕ) (xs : List ℕ)
      → bytes b ≡ x ∷ xs
      → (b' : Buffer) × (cbuf_popb b ≡ some (x, b')) × (bytes b' ≡ xs)

-- What `uart_read` comes to: an error, a byte, or the switch of its `thread_sleep`.
pub data ReadResult : Type 0 where
  error : ℕ → ReadResult
  byte : ℕ → ReadResult
  sleeps : ReadResult

module _ ⦃lib : LinkedList⦄ ⦃buf : ByteBuffer⦄ where
  open buf use {Buffer, cbuf_init, cbuf_pushb, cbuf_popb}

  -- The static variables, with the threads and the bytes sent to ports.
  pub record Uart : Type 0 where
    pub kernel : Kernel
    pub uart_cbuf : Buffer
    pub uart_waiter : Option ℕ
    pub sent : List (ℕ × ℕ)

  -- With the address of `uart_irq_handler`.
  pub uart_setup : Uart → Processor → ℕ → Outcome (Uart × Processor)
  uart_setup s c handler = do
    let p1 = io_write c.pics (uart_com1_port + uart_reg_lcr) 0x80
    let p2 = io_write p1 (uart_com1_port + uart_reg_divl) 1
    let p3 = io_write p2 (uart_com1_port + uart_reg_divh) 0
    let p4 = io_write p3 (uart_com1_port + uart_reg_lcr) 0x3
    c ← cpu_irq_register (record c { pics = p4 }) uart_irq handler 0
    ok (
      record s { uart_cbuf = cbuf_init },
      record c { pics = io_write c.pics (uart_com1_port + uart_reg_ier) 0x1 },
    )

  unfoldable pub uart_write : Uart → ℕ → Uart
  uart_write s sent = record s { sent = s.sent ++ ((uart_com1_port, sent) ∷ []) }

  -- The end of `uart_read`.
  unfoldable pub uart_read_end : Uart → ℕ → ReadResult → Outcome (ReadResult × Uart)
  uart_read_end s eflags result = do
    k ← thread_preempt_enable (record s.kernel { eflags = cpu_intr_restore s.kernel.eflags eflags })
    ok (result, record s { kernel = k })

  -- The body of the loop of `uart_read`, up to the switch of `thread_sleep`.
  unfoldable pub uart_read_turn : Uart → ℕ → Outcome (ReadResult × Uart)
  uart_read_turn s eflags = elim (cbuf_popb s.uart_cbuf) [
    | some (first, rest) ↦ uart_read_end (record s { uart_cbuf = rest }) eflags (byte first)
    | none ↦ do
      let s1 = record s { uart_waiter = some (thread_self s.kernel) }
      k ← thread_sleep s1.kernel
      ok (sleeps, record s1 { kernel = k })
  ]

  -- The loop behind `thread_sleep`.
  unfoldable pub uart_read_awake : Uart → ℕ → Outcome (ReadResult × Uart)
  uart_read_awake s eflags = uart_read_turn (record s { uart_waiter = none }) eflags

  unfoldable pub uart_read : Uart → Outcome (ReadResult × Uart)
  uart_read s = do
    k ← thread_preempt_disable s.kernel
    let (eflags, off) = cpu_intr_save k.eflags
    let s1 = record s { kernel = record k { eflags = off } }
    elim s.uart_waiter [
      | some waiter ↦ uart_read_end s1 eflags (error error_busy)
      | none ↦ uart_read_turn s1 eflags
    ]
