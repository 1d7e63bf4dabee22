-- ===== src/Printf/Output.antt =====
-- `vprintf` of src/printf.c ends, and sends the text that `vsnprintf` made.
use x.Base.{
  ℕ, zero, suc, ◌+◌, ◌%◌, ◌<◌, ◌≡◌, refl, ap, sym, ◌∙◌, subst, List, [], ◌∷◌, ◌++◌, append_assoc,
  append-nil, length, ==_eq, ==_ne, arith,
}
use x.Base.Outcome.{ok}
use x.LinkedList.{LinkedList}
use x.Cpu.Flags.{cpu_intr_save, cpu_intr_restore, cpu_intr_disable}
use x.Strings.Text.{IsString}
use x.Thread.State.{Kernel, in_code}
use x.Thread.Sched.{thread_preempt_enable}
use x.Thread.System.{IsSystem}
use x.Thread.Enable.{Continued, Continued-trans, at_level-Continued, preempt_enable_lem}
use x.Thread.Quiet.{masked}
use x.Thread.Trace.{preempt_disable_lem}
use x.Uart.{ByteBuffer, Uart, uart_com1_port, uart_write}
use x.Printf.{Console, printf_buffer_size, send_loop, vprintf}

-- What the port gets for some bytes.
abbrev pub sent_bytes : List ℕ → List (ℕ × ℕ)
sent_bytes [] = []
sent_bytes (x ∷ xs) = (uart_com1_port, x) ∷ sent_bytes xs

pub sent_bytes-append : (xs ys : List ℕ) → sent_bytes (xs ++ ys) ≡ sent_bytes xs ++ sent_bytes ys
sent_bytes-append [] ys = refl
sent_bytes-append (x ∷ xs) ys = ap (λ l. (uart_com1_port, x) ∷ l) (sent_bytes-append xs ys)

module _ ⦃lib : LinkedList⦄ ⦃buf : ByteBuffer⦄ where
  -- On a buffer that holds a string from an index on, and with more fuel than it has characters,
  -- the loop of `vprintf` ends: it sent the characters in their order, and changed nothing else.
  pub send_loop_lem :
      (fuel : ℕ) (buffer : ℕ → ℕ) (ptr : ℕ) (u : Uart) (text : List ℕ)
      → IsString buffer ptr text
      → length text < fuel
      → send_loop fuel buffer ptr u ≡ ok (record u { sent = u.sent ++ sent_bytes text })
  unfolding send_loop uart_write
  send_loop_lem zero buffer ptr u text h lt = absurd (omega arith)
  send_loop_lem (suc fuel) buffer ptr u [] h lt =
      rw (==_eq (buffer ptr) 0 h, append-nil u.sent) refl
  send_loop_lem (suc fuel) buffer ptr u (c ∷ cs) h lt =
      let byte : buffer ptr % 256 ≡ c = omega (arith, h.0, h.2) in
      rw
        (
          ==_ne (buffer ptr) 0 (omega (arith, h.0, h.1)),
          byte,
          send_loop_lem fuel buffer (ptr + 1)
              (record u { sent = u.sent ++ ((uart_com1_port, c) ∷ []) }) cs h.3 (omega arith),
        )
        (ap (λ l. ok (record u { sent = l }))
          (append_assoc u.sent ((uart_com1_port, c) ∷ []) (sent_bytes cs)))

  module _ {Args : Type 0} (vsnprintf : (ℕ → ℕ) → ℕ → List ℕ → Args → ℕ × (ℕ → ℕ)) where
    -- The buffer after the call.
    abbrev pub filled : Console → List ℕ → Args → ℕ → ℕ
    filled s format args = (vsnprintf s.printf_buffer printf_buffer_size format args).1

    -- The console once the text is sent, with the kernel at the end of the call.
    abbrev pub printed : Console → List ℕ → Args → List ℕ → Kernel → Console
    printed s format args text k = record {
      uart = record s.uart { kernel = k; sent = s.uart.sent ++ sent_bytes text };
      printf_buffer = filled s format args;
    }

    pub vprintf_code :
        (s : Console) (format : List ℕ) (args : Args) (text : List ℕ) (k' : Kernel)
        → (s.uart.kernel.threads s.uart.kernel.current).preempt_level < 4294967295
        → IsString (filled s format args) 0 text
        → length text < printf_buffer_size
        → thread_preempt_enable (masked s.uart.kernel) ≡ ok k'
        → vprintf vsnprintf s format args
          ≡ ok (
            (vsnprintf s.printf_buffer printf_buffer_size format args).0,
            printed s format args text k',
          )
    unfolding vprintf cpu_intr_save cpu_intr_restore
    vprintf_code s format args text k' lt string fits run =
        let k = s.uart.kernel in
        rw
          (
            preempt_disable_lem k lt,
            send_loop_lem printf_buffer_size (filled s format args) 0
                (record s.uart {
                  kernel = record (masked k) { eflags = cpu_intr_disable k.eflags };
                })
                text string fits,
            run,
          )
          refl

    -- In a system in order, with the preemption level below its limit, and a vsnprintf that
    -- leaves in the buffer a string of fewer characters than the buffer's size, vprintf, by
    -- a thread in its own code, ends and fails no assertion: it returns what vsnprintf
    -- does, the characters of the string were sent to the port behind what was sent before,
    -- in their order and no others, and the threads go on.
    pub vprintf_lem :
        (s : Console) (format : List ℕ) (args : Args) (text : List ℕ)
        → IsSystem s.uart.kernel
        → (s.uart.kernel.threads s.uart.kernel.current).point ≡ in_code
        → (s.uart.kernel.threads s.uart.kernel.current).preempt_level < 4294967295
        → IsString (filled s format args) 0 text
        → length text < printf_buffer_size
        → (s' : Console) × (vprintf vsnprintf s format args
            ≡ ok ((vsnprintf s.printf_buffer printf_buffer_size format args).0, s'))
          × (s'.uart.sent ≡ s.uart.sent ++ sent_bytes text)
          × Continued s.uart.kernel s'.uart.kernel
    vprintf_lem s format args text v code lt string fits =
        let k = s.uart.kernel in
        let level = (k.threads k.current).preempt_level + 1 in
        let self : (masked k).threads k.current
            ≡ record (k.threads k.current) { preempt_level = level } =
          rw (==_eq k.current k.current refl) refl in
        let before : Continued k (masked k) =
          at_level-Continued k level k.eflags v.orderly v.runs code in
        let (k', run, after) =
          preempt_enable_lem (masked k) before.system.orderly before.system.runs
            (ap (λ d. d.point) self ∙ code)
            (subst (λ d. 0 < d.preempt_level) (sym self) (omega arith)) in
        (
          printed s format args text k',
          vprintf_code s format args text k' lt string fits run,
          refl,
          Continued-trans k (masked k) k' before after,
        )
