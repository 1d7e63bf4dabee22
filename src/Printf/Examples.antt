-- ===== src/Printf/Examples.antt =====
-- The theorems on src/printf.c and src/panic.c in the small system of Thread/Runs, with a `vsnprintf`
-- that copies its format.
use x.Base.{
  ℕ, zero, suc, ◌+◌, ◌≡◌, ◌≤◌, refl, ap, ◌∙◌, false, Bool-cases, inl, inr, none, List, [], ◌∷◌,
  ◌++◌, length, arith, ltb, ◌&&◌, if◌then◌else◌,
}
use x.Base.Outcome.{ok}
use x.LinkedList.{sequences}
use x.Cpu.Flags.{cpu_intr_enabled, cpu_intr_disable}
use x.Strings.Text.{IsString}
use x.Thread.Calls.{at_level}
use x.Thread.Enable.{Continued}
use x.Thread.Runs.{at, at-IsSystem}
use x.Uart.Examples.{byte_list}
use x.Printf.{Console, panic_prefix, newline, vprintf, panic}
use x.Printf.Output.{sent_bytes, vprintf_lem}
use x.Printf.Panic.{Prints, panic_lem}

-- The first characters of a format, up to a NUL, and a byte of a buffer that holds them.
abbrev pub first_chars : ℕ → List ℕ → List ℕ
first_chars zero cs = []
first_chars (suc n) [] = []
first_chars (suc n) (c ∷ cs) =
    let rest = first_chars n cs in if ltb 0 c && ltb c 256 then c ∷ rest else []

abbrev pub byte_at : List ℕ → ℕ → ℕ
byte_at [] i = 0
byte_at (c ∷ cs) zero = c
byte_at (c ∷ cs) (suc i) = byte_at cs i

first_chars-IsString :
    (n : ℕ) (cs : List ℕ) (b : ℕ → ℕ) (p : ℕ)
    → ((i : ℕ) → b (p + i) ≡ byte_at (first_chars n cs) i)
    → IsString b p (first_chars n cs) × (length (first_chars n cs) ≤ n)
first_chars-IsString zero cs b p holds = (ap b (omega arith) ∙ holds 0, omega arith)
first_chars-IsString (suc n) [] b p holds = (ap b (omega arith) ∙ holds 0, omega arith)
first_chars-IsString (suc n) (c ∷ cs) b p holds = elim (Bool-cases (ltb 0 c && ltb c 256)) [
  | inl char ↦
      let here : b p ≡ c =
        ap b (omega arith)
        ∙ holds 0
        ∙ ap (λ t. byte_at (if t then c ∷ first_chars n cs else []) 0) char in
      let (string, short) = first_chars-IsString n cs b (p + 1) (λ i.
        ap b (omega arith)
        ∙ holds (suc i)
        ∙ ap (λ t. byte_at (if t then c ∷ first_chars n cs else []) (suc i)) char) in
      rw char ((here, ground (arith, char), ground (arith, char), string), omega (arith, short))
  | inr stop ↦
      let here : b p ≡ 0 =
        ap b (omega arith)
        ∙ holds 0
        ∙ ap (λ t. byte_at (if t then c ∷ first_chars n cs else []) 0) stop in
      rw stop (here, omega arith)
]

abbrev pub copy_format : (ℕ → ℕ) → ℕ → List ℕ → Unit {0} → ℕ × (ℕ → ℕ)
copy_format b size format args = (length format, byte_at (first_chars 1023 format))

abbrev pub text_of : List ℕ → Unit {0} → List ℕ
text_of format args = first_chars 1023 format

pub copy_format-Prints : Prints copy_format text_of
copy_format-Prints b format args =
    let (string, short) =
      first_chars-IsString 1023 format (byte_at (first_chars 1023 format)) 0
        (λ i. ap (byte_at (first_chars 1023 format)) (omega arith)) in
    (string, omega (arith, short))

abbrev pub console : ℕ → Console
console level = record {
  uart = record { kernel = at level; uart_cbuf = []; uart_waiter = none; sent = [] };
  printf_buffer = λ i. 0;
}

vprintf_lem_example :
    (s' : Console) × (vprintf copy_format (console 0) (79 ∷ 75 ∷ []) tt ≡ ok (2, s'))
    × (s'.uart.sent ≡ sent_bytes (79 ∷ 75 ∷ []))
    × Continued (at 0) s'.uart.kernel
vprintf_lem_example =
    vprintf_lem copy_format (console 0) (79 ∷ 75 ∷ []) tt (79 ∷ 75 ∷ []) (at-IsSystem 0) refl
      (omega arith) (refl, omega arith, omega arith, (refl, omega arith, omega arith, refl))
      (omega arith)

panic_lem_example :
    (s' : Console) × (panic copy_format tt (console 0) (79 ∷ 75 ∷ []) tt ≡ ok s')
    × (s'.uart.sent ≡ sent_bytes (panic_prefix ++ (79 ∷ 75 ∷ []) ++ newline))
    × (s'.uart.kernel ≡ at_level (at 0) 1 (cpu_intr_disable 0x202))
    × (cpu_intr_enabled s'.uart.kernel.eflags ≡ false)
panic_lem_example =
    panic_lem copy_format text_of tt (console 0) (79 ∷ 75 ∷ []) tt copy_format-Prints refl refl
      (omega arith)
