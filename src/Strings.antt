-- ===== src/Strings.antt =====
-- src/string.c: memory and string functions on a memory of bytes. A pointer is an address; the loops
-- that look for the end of a string run on fuel, and give `none` where that is used up.
pub mod Copy
pub mod Text
pub mod Compare
mod Examples
use x.Base.{ℕ, zero, suc, ◌+◌, ◌-◌, Option, none, some, leb, ltb, ◌==◌, if◌then◌else◌, update}
use x.Base.Word.{sub32}

abbrev pub Memory : Type 0
Memory = ℕ → ℕ

-- the loop of `n` steps upwards, and the one downwards
pub copy_up : ℕ → Memory → ℕ → ℕ → Memory
copy_up zero mem dest_ptr src_ptr = mem
copy_up (suc n) mem dest_ptr src_ptr =
    copy_up n (update mem dest_ptr (mem src_ptr)) (dest_ptr + 1) (src_ptr + 1)

pub copy_down : ℕ → Memory → ℕ → ℕ → Memory
copy_down zero mem dest_ptr src_ptr = mem
copy_down (suc n) mem dest_ptr src_ptr =
    copy_down n (update mem dest_ptr (mem src_ptr)) (dest_ptr - 1) (src_ptr - 1)

-- The functions that return their `dest` give it with the memory.
pub memcpy : Memory → ℕ → ℕ → ℕ → ℕ × Memory
memcpy mem dest src n = (dest, copy_up n mem dest src)

pub memmove : Memory → ℕ → ℕ → ℕ → ℕ × Memory
memmove mem dest src n = (
  dest,
  if leb dest src then copy_up n mem dest src else copy_down n mem (dest + n - 1) (src + n - 1),
)

pub strcpy_loop : ℕ → Memory → ℕ → ℕ → Option Memory
strcpy_loop zero mem dest src = none
strcpy_loop (suc fuel) mem dest src =
    let mem' = update mem dest (mem src) in
    let rest = strcpy_loop fuel mem' (dest + 1) (src + 1) in
    if mem src == 0 then some mem' else rest

pub strcpy : ℕ → Memory → ℕ → ℕ → Option (ℕ × Memory)
strcpy fuel mem dest src = elim (strcpy_loop fuel mem dest src) [
  | none ↦ none
  | some mem' ↦ some (dest, mem')
]

pub strlen_loop : ℕ → Memory → ℕ → Option ℕ
strlen_loop zero mem s = none
strlen_loop (suc fuel) mem s =
    let rest = strlen_loop fuel mem (s + 1) in if mem s == 0 then some s else rest

pub strlen : ℕ → Memory → ℕ → Option ℕ
strlen fuel mem start = elim (strlen_loop fuel mem start) [
  | none ↦ none
  | some s ↦ some (s - start)
]

-- A `char` is signed on this processor; its value as an `int`, a word in two's complement.
pub int_of_char : ℕ → ℕ
int_of_char c = if ltb c 128 then c else c + 4294967040

pub char_difference : ℕ → ℕ → ℕ
char_difference c1 c2 = sub32 (int_of_char c1) (int_of_char c2)

pub strcmp : ℕ → Memory → ℕ → ℕ → Option ℕ
strcmp zero mem s1 s2 = none
strcmp (suc fuel) mem s1 s2 =
    let rest = strcmp fuel mem (s1 + 1) (s2 + 1) in
    if mem s1 == mem s2
    then if mem s1 == 0 then some 0 else rest
    else some (char_difference (mem s1) (mem s2))

-- The loop of `strncmp`, with the characters that the last test read.
pub strncmp_loop : ℕ → Memory → ℕ → ℕ → ℕ → ℕ → ℕ
strncmp_loop zero mem s1 s2 c1 c2 = char_difference c1 c2
strncmp_loop (suc n) mem s1 s2 c1 c2 =
    let rest = strncmp_loop n mem (s1 + 1) (s2 + 1) (mem s1) (mem s2) in
    if mem s1 == mem s2 then if mem s1 == 0 then 0 else rest else char_difference (mem s1) (mem s2)

-- The characters are not initialised before the loop, which a positive `n` enters.
pub strncmp : Memory → ℕ → ℕ → ℕ → ℕ
strncmp mem s1 s2 n = if n == 0 then 0 else strncmp_loop n mem s1 s2 0 0
