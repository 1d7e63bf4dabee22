-- ===== src/Strings/Compare.antt =====
-- `strcmp` and `strncmp` of src/string.c compare the strings that memory holds.
use x.Base.{
  ℕ, zero, suc, ◌+◌, ◌<◌, ◌≡◌, refl, ap, ◌∙◌, sym, ◌↔◌, some, List, [], ◌∷◌, length, arith, ◌==◌,
  if◌then◌else◌, inl, inr, ==_eq, ==_ne, Bool-cases, ==_iff,
}
use x.Strings.{Memory, int_of_char, char_difference, strcmp, strncmp_loop, strncmp}
use x.Strings.Text.{IsString}

-- The difference at the first place where the strings differ, their NULs included.
abbrev pub difference : List ℕ → List ℕ → ℕ
difference [] [] = 0
difference [] (d ∷ ds) = char_difference 0 d
difference (c ∷ cs) [] = char_difference c 0
difference (c ∷ cs) (d ∷ ds) =
    let rest = difference cs ds in if c == d then rest else char_difference c d

abbrev pub take : ℕ → List ℕ → List ℕ
take zero cs = []
take (suc n) [] = []
take (suc n) (c ∷ cs) = c ∷ take n cs

-- Bytes that differ have a difference.
char_difference-zero : (c d : ℕ) → c < 256 → d < 256 → char_difference c d ≡ 0 → c ≡ d
unfolding char_difference int_of_char
char_difference-zero c d lc ld e = ground arith

char_difference_self : (c : ℕ) → char_difference c c ≡ 0
unfolding char_difference
char_difference_self c = ground arith

strcmp-difference :
    (fuel : ℕ) (mem : Memory) (s1 s2 : ℕ) (cs ds : List ℕ)
    → IsString mem s1 cs
    → IsString mem s2 ds
    → length cs < fuel
    → strcmp fuel mem s1 s2 ≡ some (difference cs ds)
unfolding strcmp
strcmp-difference zero mem s1 s2 cs ds h g lt = absurd (omega arith)
strcmp-difference (suc fuel) mem s1 s2 [] [] h g lt = rw (h, g)
strcmp-difference (suc fuel) mem s1 s2 [] (d ∷ ds) h g lt =
    rw (h, g.0, ==_ne 0 d (omega (arith, g.1)))
strcmp-difference (suc fuel) mem s1 s2 (c ∷ cs) [] h g lt =
    rw (h.0, g, ==_ne c 0 (omega (arith, h.1)))
strcmp-difference (suc fuel) mem s1 s2 (c ∷ cs) (d ∷ ds) h g lt =
    let rest = strcmp-difference fuel mem (s1 + 1) (s2 + 1) cs ds h.3 g.3 (omega arith) in
    rw (h.0, g.0, rest, ==_ne c 0 (omega (arith, h.1))) (ground arith)

difference-same : (cs ds : List ℕ) → cs ≡ ds → difference cs ds ≡ 0
difference-same [] [] e = refl
difference-same [] (d ∷ ds) e = absurd (cc)
difference-same (c ∷ cs) [] e = absurd (cc)
difference-same (c ∷ cs) (d ∷ ds) e =
    let here : c ≡ d = cc in rw (==_eq c d here) (difference-same cs ds (cc))

-- characters of a string: bytes, and not NUL
abbrev IsText : List ℕ → Type 0
IsText [] = Unit {0}
IsText (c ∷ cs) = (0 < c) × (c < 256) × IsText cs

string-IsText : (mem : Memory) (s : ℕ) (cs : List ℕ) → IsString mem s cs → IsText cs
string-IsText mem s [] h = tt
string-IsText mem s (c ∷ cs) h = (h.1, h.2, string-IsText mem (s + 1) cs h.3)

take-IsText : (n : ℕ) (cs : List ℕ) → IsText cs → IsText (take n cs)
take-IsText zero cs h = tt
take-IsText (suc n) [] h = tt
take-IsText (suc n) (c ∷ cs) h = (h.0, h.1, take-IsText n cs h.2)

difference-zero : (cs ds : List ℕ) → IsText cs → IsText ds → difference cs ds ≡ 0 → cs ≡ ds
difference-zero [] [] h g e = refl
difference-zero [] (d ∷ ds) h g e =
    absurd (omega (arith, char_difference-zero 0 d (omega arith) g.1 e, g.0))
difference-zero (c ∷ cs) [] h g e =
    absurd (omega (arith, char_difference-zero c 0 h.1 (omega arith) e, h.0))
difference-zero (c ∷ cs) (d ∷ ds) h g e = elim (Bool-cases (c == d)) [
  | inl same ↦
      let here : c ≡ d = (==_iff c d).0 same in
      let rest : cs ≡ ds = difference-zero cs ds h.2 g.2 (rw same at e) in
      ap (λ x. x ∷ cs) here ∙ ap (λ xs. d ∷ xs) rest
  | inr other ↦
      let here : c ≡ d = char_difference-zero c d h.1 g.1 (rw other at e) in
      absurd (ground (arith, here, other))
]

-- On two strings, `strcmp` returns the difference of the first characters in which they differ, and 0
-- exactly if the strings are the same.
pub strcmp_lem :
    (fuel : ℕ) (mem : Memory) (s1 s2 : ℕ) (cs ds : List ℕ)
    → IsString mem s1 cs
    → IsString mem s2 ds
    → length cs < fuel
    → (strcmp fuel mem s1 s2 ≡ some (difference cs ds)) × ((difference cs ds ≡ 0) ↔ (cs ≡ ds))
strcmp_lem fuel mem s1 s2 cs ds h g lt = (
  strcmp-difference fuel mem s1 s2 cs ds h g lt,
  (
    difference-zero cs ds (string-IsText mem s1 cs h) (string-IsText mem s2 ds g),
    difference-same cs ds,
  ),
)

strncmp-difference :
    (n : ℕ) (mem : Memory) (s1 s2 c : ℕ) (cs ds : List ℕ)
    → IsString mem s1 cs
    → IsString mem s2 ds
    → strncmp_loop n mem s1 s2 c c ≡ difference (take n cs) (take n ds)
unfolding strncmp_loop
strncmp-difference zero mem s1 s2 c cs ds h g = char_difference_self c
strncmp-difference (suc n) mem s1 s2 c [] [] h g = rw (h, g)
strncmp-difference (suc n) mem s1 s2 c [] (d ∷ ds) h g = rw (h, g.0, ==_ne 0 d (omega (arith, g.1)))
strncmp-difference (suc n) mem s1 s2 c (b ∷ cs) [] h g = rw (h.0, g, ==_ne b 0 (omega (arith, h.1)))
strncmp-difference (suc n) mem s1 s2 c (b ∷ cs) (d ∷ ds) h g = elim (Bool-cases (b == d)) [
  | inl same ↦
      let here : d ≡ b = sym ((==_iff b d).0 same) in
      let rest = strncmp-difference n mem (s1 + 1) (s2 + 1) b cs ds h.3 g.3 in
      rw (h.0, g.0, here, rest, ==_eq b b refl, ==_ne b 0 (omega (arith, h.1)))
  | inr other ↦ rw (h.0, g.0, other)
]

strncmp_code :
    (n : ℕ) (mem : Memory) (s1 s2 : ℕ) (cs ds : List ℕ)
    → IsString mem s1 cs
    → IsString mem s2 ds
    → strncmp mem s1 s2 n ≡ difference (take n cs) (take n ds)
unfolding strncmp
strncmp_code zero mem s1 s2 cs ds h g = refl
strncmp_code (suc n) mem s1 s2 cs ds h g =
    rw (==_ne (suc n) 0 (omega arith), strncmp) (strncmp-difference (suc n) mem s1 s2 0 cs ds h g)

-- On two strings, `strncmp` compares their first `n` characters: it returns the difference of the
-- first of them that differ, and 0 exactly if they are the same.
pub strncmp_lem :
    (n : ℕ) (mem : Memory) (s1 s2 : ℕ) (cs ds : List ℕ)
    → IsString mem s1 cs
    → IsString mem s2 ds
    → (strncmp mem s1 s2 n ≡ difference (take n cs) (take n ds))
      × ((strncmp mem s1 s2 n ≡ 0) ↔ (take n cs ≡ take n ds))
strncmp_lem n mem s1 s2 cs ds h g =
    let code = strncmp_code n mem s1 s2 cs ds h g in
    let left = take-IsText n cs (string-IsText mem s1 cs h) in
    let right = take-IsText n ds (string-IsText mem s2 ds g) in
    (
      code,
      (
        λ e. difference-zero (take n cs) (take n ds) left right (sym code ∙ e),
        λ e. code ∙ difference-same (take n cs) (take n ds) e,
      ),
    )
