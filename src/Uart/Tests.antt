-- ===== src/Uart/Tests.antt =====
-- The interrupt handler of src/uart.c in the small system of Thread/Runs: the buffer is full, and thread 4
-- sleeps.
use x.Base.{◌≡◌, refl, some, [], ◌∷◌, arith}
use x.Base.Outcome.{ok}
use x.LinkedList.{sequences}
use x.Thread.Runs.{at, at-IsSystem}
use x.Printf.{Console}
use x.Printf.Examples.{copy_format, text_of, copy_format-Prints}
use x.Uart.Examples.{byte_list}
use x.Uart.Irq.{uart_irq_handler, Received, irq_lem}

-- Thread 2 is interrupted.
abbrev full : Console
full = record {
  uart = record {
    kernel = at 1;
    uart_cbuf = 1 ∷ 2 ∷ 3 ∷ 4 ∷ 5 ∷ 6 ∷ 7 ∷ 8 ∷ 9 ∷ 10 ∷ 11 ∷ 12 ∷ 13 ∷ 14 ∷ 15 ∷ 16 ∷ [];
    uart_waiter = some 4;
    sent = [];
  };
  printf_buffer = λ i. 0;
}

irq_lem_example :
    (s' : Console) × (uart_irq_handler copy_format tt full 65 ≡ ok s') × Received full 65 s'
irq_lem_example =
    irq_lem copy_format text_of tt full 65 copy_format-Prints refl (at-IsSystem 1).orderly
      (omega arith) (omega arith) (omega arith) (λ e. cc, λ e. omega arith, λ e. omega arith)
