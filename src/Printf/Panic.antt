-- ===== src/Printf/Panic.antt =====
-- `panic` of src/panic.c, which runs `printf` with preemption and interrupts off.
use x.Base.{
  ℕ, ◌+◌, ◌<◌, ◌≡◌, refl, ap, sym, ◌∙◌, false, List, ◌++◌, append_assoc, length, ==_eq, arith,
  if◌then◌else◌,
}
use x.Base.Outcome.{ok}
use x.LinkedList.{LinkedList}
use x.Cpu.Flags.{cpu_intr_enabled, cpu_intr_disable, enabled-disable}
use x.Strings.Text.{IsString}
use x.Thread.Calls.{at_level}
use x.Thread.Quiet.{masked_held}
use x.Thread.Trace.{preempt_disable_lem}
use x.Uart.{ByteBuffer}
use x.Printf.{Console, printf_buffer_size, panic_prefix, newline, vprintf, printf, panic}
use x.Printf.Output.{sent_bytes, sent_bytes-append, printed, vprintf_code}

module _ ⦃lib : LinkedList⦄ ⦃buf : ByteBuffer⦄ where
  module _ {Args : Type 0} (vsnprintf : (ℕ → ℕ) → ℕ → List ℕ → Args → ℕ × (ℕ → ℕ))
      (text : List ℕ → Args → List ℕ) where
    -- `vsnprintf` leaves a text in the buffer, cut where that is full, and a NUL behind it.
    abbrev pub Prints : Type 0
    Prints =
        (b : ℕ → ℕ) (format : List ℕ) (args : Args)
        → IsString (vsnprintf b printf_buffer_size format args).1 0 (text format args)
          × (length (text format args) < printf_buffer_size)

    pub vprintf_held :
        (s : Console) (format : List ℕ) (args : Args)
        → Prints
        → 0 < (s.uart.kernel.threads s.uart.kernel.current).preempt_level
        → (s.uart.kernel.threads s.uart.kernel.current).preempt_level < 4294967295
        → vprintf vsnprintf s format args
          ≡ ok (
            (vsnprintf s.printf_buffer printf_buffer_size format args).0,
            printed vsnprintf s format args (text format args) s.uart.kernel,
          )
    vprintf_held s format args prints pos lt =
        vprintf_code vsnprintf s format args (text format args) s.uart.kernel lt
          (prints s.printf_buffer format args).0 (prints s.printf_buffer format args).1
          (masked_held s.uart.kernel pos)

    -- With the preemption level two below its limit, and a vsnprintf that leaves a string
    -- in the buffer and copies the two formats of panic, which have no conversions, panic
    -- fails no assertion and gets to `cpu_halt`: it sent these and in between the text of
    -- its arguments, and switched no thread: the current one stays, with preemption
    -- disabled once more, and interrupts are off.
    pub panic_lem :
        (no_args : Args) (s : Console) (format : List ℕ) (args : Args)
        → Prints
        → text panic_prefix no_args ≡ panic_prefix
        → text newline no_args ≡ newline
        → (s.uart.kernel.threads s.uart.kernel.current).preempt_level < 4294967294
        → (s' : Console) × (panic vsnprintf no_args s format args ≡ ok s')
          × (s'.uart.sent ≡ s.uart.sent ++ sent_bytes (panic_prefix ++ text format args ++ newline))
          × (s'.uart.kernel
              ≡ at_level s.uart.kernel
                  ((s.uart.kernel.threads s.uart.kernel.current).preempt_level + 1)
                  (cpu_intr_disable s.uart.kernel.eflags))
          × (cpu_intr_enabled s'.uart.kernel.eflags ≡ false)
    unfolding panic printf
    panic_lem no_args s format args prints same1 same2 lt =
        let k = s.uart.kernel in
        let level = (k.threads k.current).preempt_level + 1 in
        let k1 = at_level k level (cpu_intr_disable k.eflags) in
        let here : (k1.threads k.current).preempt_level ≡ level =
          ap
            (λ b.
              (if b
                then record (k.threads k.current) { preempt_level = level }
                else k.threads k.current).preempt_level)
            (==_eq k.current k.current refl) in
        let pos : 0 < (k1.threads k.current).preempt_level = omega (arith, here) in
        let few : (k1.threads k.current).preempt_level < 4294967295 = omega (arith, here, lt) in
        let s1 : Console = record s { uart = record s.uart { kernel = k1 } } in
        let s2 = printed vsnprintf s1 panic_prefix no_args (text panic_prefix no_args) k1 in
        let s3 = printed vsnprintf s2 format args (text format args) k1 in
        let s4 = printed vsnprintf s3 newline no_args (text newline no_args) k1 in
        (
          s4,
          rw
              (
                preempt_disable_lem k (omega (arith, lt)),
                vprintf_held s1 panic_prefix no_args prints pos few,
                vprintf_held s2 format args prints pos few,
                vprintf_held s3 newline no_args prints pos few,
              )
              refl,
          rw (same1, same2) (joined s.uart.sent (text format args)),
          refl,
          enabled-disable k.eflags,
        )
      where
        joined :
            (sent : List (ℕ × ℕ)) (xs : List ℕ)
            → ((sent ++ sent_bytes panic_prefix) ++ sent_bytes xs) ++ sent_bytes newline
              ≡ sent ++ sent_bytes (panic_prefix ++ xs ++ newline)
        joined sent xs =
            let start = sent_bytes panic_prefix in
            ap (λ l. l ++ sent_bytes newline) (append_assoc sent start (sent_bytes xs))
            ∙ append_assoc sent (start ++ sent_bytes xs) (sent_bytes newline)
            ∙ ap (λ l. sent ++ l)
                (ap (λ l. l ++ sent_bytes newline) (sym (sent_bytes-append panic_prefix xs))
                  ∙ sym (sent_bytes-append (panic_prefix ++ xs) newline))
