-- ===== src/Strings/Text.antt =====
-- `strlen` and `strcpy` of src/string.c on the strings that memory holds.
use x.Base.{
  ℕ, zero, suc, ◌+◌, ◌≤◌, ◌<◌, ◌≡◌, ap, ◌∙◌, some, List, [], ◌∷◌, length, update, arith, ◌⊎◌, ==_eq,
  ==_ne,
}
use x.Strings.{Memory, strlen_loop, strlen, strcpy_loop, strcpy}

-- From address `s` on, memory holds the characters, none of them NUL, and then a NUL.
abbrev pub IsString : Memory → ℕ → List ℕ → Type 0
IsString mem s [] = mem s ≡ 0
IsString mem s (c ∷ cs) = (mem s ≡ c) × (0 < c) × (c < 256) × IsString mem (s + 1) cs

pub IsString-frame :
    (mem mem' : Memory) (s : ℕ) (cs : List ℕ)
    → ((q : ℕ) → s ≤ q → q < s + length cs + 1 → mem' q ≡ mem q)
    → IsString mem s cs
    → IsString mem' s cs
IsString-frame mem mem' s [] same h = same s (omega arith) (omega arith) ∙ h
IsString-frame mem mem' s (c ∷ cs) same h = (
  same s (omega arith) (omega arith) ∙ h.0,
  h.1,
  h.2,
  IsString-frame mem mem' (s + 1) cs (λ q lo hi. same q (omega arith) (omega arith)) h.3,
)

strlen_loop_lem :
    (fuel : ℕ) (mem : Memory) (s : ℕ) (cs : List ℕ)
    → IsString mem s cs
    → length cs < fuel
    → strlen_loop fuel mem s ≡ some (s + length cs)
unfolding strlen_loop
strlen_loop_lem zero mem s cs h lt = absurd (omega arith)
strlen_loop_lem (suc fuel) mem s [] h lt = rw (==_eq (mem s) 0 h) (ap some (omega arith))
strlen_loop_lem (suc fuel) mem s (c ∷ cs) h lt =
    rw
      (
        ==_ne (mem s) 0 (omega (arith, h.0, h.1)),
        strlen_loop_lem fuel mem (s + 1) cs h.3 (omega arith),
      )
      (ap some (omega arith))

-- On a string, `strlen` finds its end, in one step more than its length, and returns its length.
pub strlen_lem :
    (fuel : ℕ) (mem : Memory) (s : ℕ) (cs : List ℕ)
    → IsString mem s cs
    → length cs < fuel
    → strlen fuel mem s ≡ some (length cs)
unfolding strlen
strlen_lem fuel mem s cs h lt =
    rw (strlen_loop_lem fuel mem s cs h lt, strlen) (ap some (omega arith))

-- A string was copied, and nothing but the bytes of the copy changed.
pub record Copied (mem : Memory) (dest : ℕ) (cs : List ℕ) (mem' : Memory) : Type 0 where
  pub copy : IsString mem' dest cs
  pub outside : (q : ℕ) → (q < dest) ⊎ (dest + length cs < q) → mem' q ≡ mem q

strcpy_loop_lem :
    (fuel : ℕ) (mem : Memory) (d s : ℕ) (cs : List ℕ)
    → IsString mem s cs
    → length cs < fuel
    → (d + length cs < s) ⊎ (s + length cs < d)
    → (mem' : Memory) × (strcpy_loop fuel mem d s ≡ some mem') × Copied mem d cs mem'
unfolding strcpy_loop
strcpy_loop_lem zero mem d s cs h lt apart = absurd (omega arith)
strcpy_loop_lem (suc fuel) mem d s [] h lt apart = (
  update mem d (mem s),
  rw (==_eq (mem s) 0 h),
  record { copy = ground (arith, h); outside = λ q out. ground arith },
)
strcpy_loop_lem (suc fuel) mem d s (c ∷ cs) h lt apart =
    let mem1 = update mem d (mem s) in
    let rest : IsString mem1 (s + 1) cs =
      IsString-frame mem mem1 (s + 1) cs (λ q lo hi. ground arith) h.3 in
    let (mem', code, done) =
      strcpy_loop_lem fuel mem1 (d + 1) (s + 1) cs rest (omega arith) (omega arith) in
    (
      mem',
      rw (==_ne (mem s) 0 (omega (arith, h.0, h.1)), code),
      record {
        copy = (done.outside d (omega arith) ∙ ground (arith, h.0), h.1, h.2, done.copy);
        outside = λ q out. done.outside q (omega arith) ∙ ground arith;
      },
    )

-- On a string that does not overlap the destination, `strcpy` returns the destination, where it
-- leaves the string with its NUL, and changes nothing else.
pub strcpy_lem :
    (fuel : ℕ) (mem : Memory) (dest src : ℕ) (cs : List ℕ)
    → IsString mem src cs
    → length cs < fuel
    → (dest + length cs < src) ⊎ (src + length cs < dest)
    → (mem' : Memory) × (strcpy fuel mem dest src ≡ some (dest, mem')) × Copied mem dest cs mem'
unfolding strcpy
strcpy_lem fuel mem dest src cs h lt apart =
    let (mem', code, done) = strcpy_loop_lem fuel mem dest src cs h lt apart in
    (mem', rw (code, strcpy), done)
