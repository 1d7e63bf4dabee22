-- ===== src/Uart/Irq.antt =====
-- The interrupt handler of src/uart.c: the bytes that the serial port receives.
use x.Base.{
  ℕ, not, ◌<◌, ◌≤◌, ◌≡◌, refl, ap, ◌∙◌, false, List, [], ◌∷◌, ◌++◌, length, ◌==◌, ==_eq, ==_ne,
  arith, if◌then◌else◌,
}
use x.Base.Outcome.{Outcome, ok, ◌>>=◌}
use native.Mathlib.Decide.{dec_lt}
use x.LinkedList.{LinkedList}
use x.Thread.State.{Kernel}
use x.Thread.Sched.{thread_wakeup}
use x.Thread.System.{IsOrderly}
use x.Thread.Tell.{MayJoin, Joined, tell_lem}
use x.Uart.{ByteBuffer, uart_buffer_size}
use x.Printf.{Console, printf}
use x.Printf.Output.{sent_bytes, printed}
use x.Printf.Panic.{Prints, vprintf_held}

-- "uart: error: buffer full\n"
abbrev pub buffer_full : List ℕ
buffer_full =
    117 ∷ 97 ∷ 114 ∷ 116 ∷ 58 ∷ 32 ∷ 101 ∷ 114 ∷ 114 ∷ 111 ∷ 114 ∷ 58 ∷ 32 ∷ 98 ∷ 117 ∷ 102 ∷ 102
    ∷ 101 ∷ 114 ∷ 32 ∷ 102 ∷ 117 ∷ 108 ∷ 108 ∷ 10 ∷ []

module _ ⦃lib : LinkedList⦄ ⦃buf : ByteBuffer⦄ where
  open buf use {Buffer, cbuf_pushb, bytes, pushb-room, pushb-full}

  module _ {Args : Type 0} (vsnprintf : (ℕ → ℕ) → ℕ → List ℕ → Args → ℕ × (ℕ → ℕ)) where
    -- `uart_irq_handler`, with the arguments of a format that has none, and the byte that the port has.
    unfoldable pub uart_irq_handler : Args → Console → ℕ → Outcome Console
    uart_irq_handler no_args s received =
        let pushed = cbuf_pushb s.uart.uart_cbuf received false in
        let s1 = record s { uart = record s.uart { uart_cbuf = pushed.1 } } in
        if not (pushed.0 == 0)
        then (printf vsnprintf s1 buffer_full no_args >>= λ r. ok r.1)
        else do
          k ← thread_wakeup s1.uart.kernel s1.uart.uart_waiter
          ok (record s1 { uart = record s1.uart { kernel = k } })

  -- What an interrupt of the serial port leaves: the byte at the end of the buffer and the reader ready,
  -- or, if the buffer is full, the byte lost, with the message sent.
  pub data Received (s : Console) (x : ℕ) (s' : Console) : Type 0 where
    stored :
        length (bytes s.uart.uart_cbuf) < uart_buffer_size
        → bytes s'.uart.uart_cbuf ≡ bytes s.uart.uart_cbuf ++ (x ∷ [])
        → s'.uart.sent ≡ s.uart.sent
        → IsOrderly s'.uart.kernel
        → s'.uart.kernel.current ≡ s.uart.kernel.current
        → Joined s'.uart.kernel s.uart.uart_waiter
        → Received s x s'
    lost :
        uart_buffer_size ≤ length (bytes s.uart.uart_cbuf)
        → s'.uart ≡ record s.uart { sent = s.uart.sent ++ sent_bytes buffer_full }
        → Received s x s'

  module _ {Args : Type 0} (vsnprintf : (ℕ → ℕ) → ℕ → List ℕ → Args → ℕ × (ℕ → ℕ))
      (text : List ℕ → Args → List ℕ) where
    irq_room :
        (no_args : Args) (s : Console) (x : ℕ) (k : Kernel)
        → (cbuf_pushb s.uart.uart_cbuf x false).0 ≡ 0
        → thread_wakeup s.uart.kernel s.uart.uart_waiter ≡ ok k
        → uart_irq_handler vsnprintf no_args s x
          ≡ ok (record s {
            uart = record s.uart {
              uart_cbuf = (cbuf_pushb s.uart.uart_cbuf x false).1;
              kernel = k;
            };
          })
    unfolding uart_irq_handler
    irq_room no_args s x k fits woke =
        rw (==_eq (cbuf_pushb s.uart.uart_cbuf x false).0 0 fits, woke) refl

    irq_full :
        (no_args : Args) (s : Console) (x : ℕ)
        → 0 < (cbuf_pushb s.uart.uart_cbuf x false).0
        → uart_irq_handler vsnprintf no_args s x ≡ (
            printf vsnprintf
              (record s {
                uart = record s.uart { uart_cbuf = (cbuf_pushb s.uart.uart_cbuf x false).1 };
              })
              buffer_full
              no_args
            >>= λ r. ok r.1)
    unfolding uart_irq_handler
    irq_full no_args s x full =
        rw (==_ne (cbuf_pushb s.uart.uart_cbuf x false).0 0 (omega (arith, full))) refl

    -- With the run queue in order, the number of threads below its limit, and a vsnprintf
    -- that leaves a string in the buffer and copies the format of the message, which has no
    -- conversions: `uart_irq_handler`, called with preemption disabled while the reader, if
    -- there is one, is a thread that is alive, not current and not the idle one, fails no
    -- assertion. With room in the buffer the byte is its last one, the reader is ready and
    -- nothing is sent; else the byte is lost, and the message is sent to the port, with the
    -- threads and the buffer as they were.
    pub irq_lem :
        (no_args : Args) (s : Console) (x : ℕ)
        → Prints vsnprintf text
        → text buffer_full no_args ≡ buffer_full
        → IsOrderly s.uart.kernel
        → 0 < (s.uart.kernel.threads s.uart.kernel.current).preempt_level
        → (s.uart.kernel.threads s.uart.kernel.current).preempt_level < 4294967295
        → s.uart.kernel.nr_threads < 4294967295
        → MayJoin s.uart.kernel s.uart.uart_waiter
        → (s' : Console) × (uart_irq_handler vsnprintf no_args s x ≡ ok s') × Received s x s'
    unfolding printf
    irq_lem no_args s x prints copies v pos lt few may =
        elim (dec_lt (length (bytes s.uart.uart_cbuf)) uart_buffer_size) [
          | yes room ↦
              let (fits, at_end) = pushb-room s.uart.uart_cbuf x room in
              let (k, woke, t) = tell_lem s.uart.kernel s.uart.uart_waiter v pos lt few may in
              (
                record s {
                  uart = record s.uart {
                    uart_cbuf = (cbuf_pushb s.uart.uart_cbuf x false).1;
                    kernel = k;
                  };
                },
                irq_room no_args s x k fits woke,
                stored room at_end refl t.orderly t.same_current t.joined,
              )
          | no full ↦
              let le : uart_buffer_size ≤ length (bytes s.uart.uart_cbuf) = omega (arith, full) in
              let (fails, same) = pushb-full s.uart.uart_cbuf x le in
              let s1 : Console = record s {
                uart = record s.uart { uart_cbuf = (cbuf_pushb s.uart.uart_cbuf x false).1 };
              } in
              let code = vprintf_held vsnprintf text s1 buffer_full no_args prints pos lt in
              (
                printed vsnprintf s1 buffer_full no_args (text buffer_full no_args) s.uart.kernel,
                irq_full no_args s x fails ∙ rw code refl,
                lost le (
                    ap (λ t. record s1.uart { sent = s.uart.sent ++ sent_bytes t }) copies
                    ∙ ap
                        (λ b. record s.uart {
                          uart_cbuf = b;
                          sent = s.uart.sent ++ sent_bytes buffer_full;
                        })
                        same),
              )
        ]
