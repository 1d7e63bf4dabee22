-- ===== src/Strings/Copy.antt =====
-- `memcpy` and `memmove` of src/string.c copy the bytes that the source held before.
use x.Base.{
  ℕ, zero, suc, ◌+◌, ◌-◌, ◌≤◌, ◌<◌, ◌≡◌, refl, ◌∙◌, ap, ◌&&◌, leb, ltb, ◌==◌, if◌then◌else◌, update,
  arith, ◌⊎◌, inl, inr, Bool-cases,
}
use x.Strings.{Memory, copy_up, copy_down, memcpy, memmove}

-- The memory once `n` bytes from `src` have been moved to `dest`, seen at one address.
abbrev pub moved : Memory → ℕ → ℕ → ℕ → ℕ → ℕ
moved mem dest src n q = if leb dest q && ltb q (dest + n) then mem (src + (q - dest)) else mem q

up_step :
    (n : ℕ) (mem : Memory) (d s q : ℕ)
    → (d ≤ s) ⊎ (s + suc n ≤ d)
    → moved (update mem d (mem s)) (d + 1) (s + 1) n q ≡ moved mem d s (suc n) q
up_step n mem d s q apart = elim (Bool-cases (ltb d q)) [
  | inl above ↦
      let e : s + 1 + (q - (d + 1)) ≡ s + (q - d) = ground arith in ground (arith, ap mem e)
  | inr below ↦ elim (Bool-cases (d == q)) [
    | inl same ↦ let e : s + (q - d) ≡ s = ground arith in ground (arith, ap mem e)
    | inr other ↦ ground arith
  ]
]

copy_up_lem :
    (n : ℕ) (mem : Memory) (d s q : ℕ)
    → (d ≤ s) ⊎ (s + n ≤ d)
    → copy_up n mem d s q ≡ moved mem d s n q
unfolding copy_up
copy_up_lem zero mem d s q apart = ground arith
copy_up_lem (suc n) mem d s q apart =
    copy_up_lem n (update mem d (mem s)) (d + 1) (s + 1) q (ground arith)
    ∙ up_step n mem d s q apart

down_step :
    (n : ℕ) (mem : Memory) (d s q : ℕ)
    → s < d
    → moved (update mem (d + n) (mem (s + n))) d s n q ≡ moved mem d s (suc n) q
down_step n mem d s q lt = elim (Bool-cases ((d + n) == q)) [
  | inl last ↦ let e : s + (q - d) ≡ s + n = ground arith in ground (arith, ap mem e)
  | inr other ↦ ground arith
]

copy_down_lem :
    (n : ℕ) (mem : Memory) (d s q : ℕ)
    → s < d
    → copy_down n mem (d + n - 1) (s + n - 1) q ≡ moved mem d s n q
unfolding copy_down
copy_down_lem zero mem d s q lt = ground arith
copy_down_lem (suc n) mem d s q lt =
    let top : d + suc n - 1 ≡ d + n = omega arith in
    let from : s + suc n - 1 ≡ s + n = omega arith in
    rw (top, from)
      (copy_down_lem n (update mem (d + n) (mem (s + n))) d s q lt ∙ down_step n mem d s q lt)

-- `memcpy` returns `dest`, and leaves there the bytes of the source. The copy may overlap its source
-- only from above.
pub memcpy_lem :
    (mem : Memory) (dest src n : ℕ)
    → (dest ≤ src) ⊎ (src + n ≤ dest)
    → ((memcpy mem dest src n).0 ≡ dest)
      × ((q : ℕ) → (memcpy mem dest src n).1 q ≡ moved mem dest src n q)
unfolding memcpy
memcpy_lem mem dest src n apart = (refl, λ q. copy_up_lem n mem dest src q apart)

-- `memmove` returns `dest`, and leaves there the bytes that the source held before, however the two
-- overlap; it changes nothing else.
pub memmove_lem :
    (mem : Memory) (dest src n : ℕ)
    → ((memmove mem dest src n).0 ≡ dest)
      × ((q : ℕ) → (memmove mem dest src n).1 q ≡ moved mem dest src n q)
unfolding memmove
memmove_lem mem dest src n = (
  refl,
  λ q. elim (Bool-cases (leb dest src)) [
    | inl up ↦ rw up (copy_up_lem n mem dest src q (inl (ground arith)))
    | inr down ↦ rw down (copy_down_lem n mem dest src q (ground arith))
  ],
)
