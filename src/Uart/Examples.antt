-- ===== src/Uart/Examples.antt =====
-- The theorems on src/uart.c in the small system of Thread/Runs, with a list of bytes for the circular
-- buffer, with two bytes in it.
use x.Base.{
  ℕ, ◌≡◌, refl, ap, true, false, Option, none, some, List, [], ◌∷◌, ◌++◌, length, leb, arith,
  if◌then◌else◌,
}
use x.Base.Outcome.{ok}
use x.LinkedList.{sequences}
use x.Thread.Runs.{at, at-IsSystem}
use x.Uart.{ByteBuffer, Uart, ReadResult, uart_read}
use x.Uart.Bytes.{Read, read_lem}

-- `cbuf_popb` on a list of bytes.
abbrev pop : List ℕ → Option (ℕ × List ℕ)
pop [] = none
pop (x ∷ xs) = some (x, xs)

instance abbrev pub byte_list : ByteBuffer
byte_list = record {
  Buffer = List ℕ;
  cbuf_init = [];
  cbuf_pushb = λ b x erase. if leb 16 (length b) then (2, b) else (0, b ++ (x ∷ []));
  cbuf_popb = pop;
  bytes = λ b. b;
  bytes-init = refl;
  pushb-room =
      λ b x room. let e : leb 16 (length b) ≡ false = ground (arith, room) in rw e (refl, refl);
  pushb-full = λ b x full.
      let e : leb 16 (length b) ≡ true = ground (arith, full) in rw e (omega arith, refl);
  popb-empty = λ b e. ap pop e;
  popb-first = λ b x xs e. (xs, ap pop e, refl);
}

abbrev filled : Uart
filled = record { kernel = at 0; uart_cbuf = 65 ∷ 66 ∷ []; uart_waiter = none; sent = [] }

read_lem_example :
    (r : ReadResult) × (s' : Uart) × (uart_read filled ≡ ok (r, s')) × Read filled r s'
read_lem_example = read_lem filled (at-IsSystem 0) refl refl (λ e. omega arith)
