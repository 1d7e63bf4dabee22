-- ===== src/Uart/Start.antt =====
-- `uart_setup` of src/uart.c registers its interrupt.
use x.Base.{ℕ, ◌+◌, ◌≡◌, ap, none, arith}
use x.Base.Outcome.{Outcome, ok, ◌>>=◌}
use x.LinkedList.{LinkedList}
use x.Cpu.Tables.{Processor}
use x.Cpu.Tables.Handlers.{register_lem}
use x.I8259.{io_write}
use x.Uart.{ByteBuffer, Uart, uart_com1_port, uart_reg_ier, uart_setup}

module _ ⦃lib : LinkedList⦄ ⦃buf : ByteBuffer⦄ where
  -- The interrupt is enabled in the port.
  abbrev enabled : Uart → Processor → Outcome (Uart × Processor)
  enabled s c = ok (
    record s { uart_cbuf = buf.cbuf_init },
    record c { pics = io_write c.pics (uart_com1_port + uart_reg_ier) 0x1 },
  )

  pub uart_setup_lem :
      (s : Uart) (c : Processor) (handler : ℕ)
      → (c.irq_handlers 4).fn ≡ none
      → (c' : Processor) × (uart_setup s c handler
          ≡ ok (record s { uart_cbuf = buf.cbuf_init }, c'))
  unfolding uart_setup
  uart_setup_lem s c handler free =
      let (c1, code, set, others, masks) = register_lem _ 4 handler 0 (omega arith) free in
      (_, ap (λ m. m >>= enabled s) code)
