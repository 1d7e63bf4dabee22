-- ===== src/Strings/Examples.antt =====
-- The theorems on src/string.c at a memory that holds "hi" at 16 and "ho" at 32.
use x.Base.{ℕ, ◌≡◌, refl, ◌↔◌, some, List, [], ◌∷◌, ◌==◌, if◌then◌else◌, arith}
use x.Strings.{Memory, memmove, strcmp, strncmp, int_of_char, char_difference}
use x.Strings.Copy.{moved, memmove_lem}
use x.Strings.Text.{IsString}
use x.Strings.Compare.{difference, take, strncmp_lem}

abbrev words : Memory
words a =
    if a == 16
    then 104
    else if a == 17
    then 105
    else if a == 32
    then 104
    else if a == 33
    then 111
    else 0

memmove_lem_example :
    ((memmove words 17 16 2).0 ≡ 17)
    × ((q : ℕ) → (memmove words 17 16 2).1 q ≡ moved words 17 16 2 q)
memmove_lem_example = memmove_lem words 17 16 2

abbrev hi_text : List ℕ
hi_text = 104 ∷ 105 ∷ []

abbrev ho_text : List ℕ
ho_text = 104 ∷ 111 ∷ []

hi : IsString words 16 hi_text
hi = (refl, omega arith, omega arith, (refl, omega arith, omega arith, refl))

ho : IsString words 32 ho_text
ho = (refl, omega arith, omega arith, (refl, omega arith, omega arith, refl))

strncmp_lem_example :
    (strncmp words 16 32 1 ≡ difference (take 1 hi_text) (take 1 ho_text))
    × ((strncmp words 16 32 1 ≡ 0) ↔ (take 1 hi_text ≡ take 1 ho_text))
strncmp_lem_example = strncmp_lem 1 words 16 32 hi_text ho_text hi ho

-- "hi" is less than "ho"; a byte from 128 on counts as negative.
less : strcmp 3 words 16 32 ≡ some 4294967290
unfolding strcmp char_difference int_of_char
less = refl

negative : char_difference 200 104 ≡ 4294967136
unfolding char_difference int_of_char
negative = refl
