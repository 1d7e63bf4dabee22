-- ===== src/I8259/Masks.antt =====
-- The bits of the interrupt masks of src/i8259.c.
use x.Base.{ℕ, zero, suc, ◌/◌, ◌%◌, ◌^◌, ◌<◌, ◌≡◌, ◌==◌, if◌then◌else◌, arith}
use x.I8259.{clear_bit, set_bit}

abbrev pub bit : ℕ → ℕ → ℕ
bit x i = x / 2 ^ i % 2

below_eight :
    (P : ℕ → Type 0) → P 0 → P 1 → P 2 → P 3 → P 4 → P 5 → P 6 → P 7 → (i : ℕ) → i < 8 → P i
below_eight P a b c d e f g h zero lt = a
below_eight P a b c d e f g h (suc zero) lt = b
below_eight P a b c d e f g h (suc (suc zero)) lt = c
below_eight P a b c d e f g h (suc (suc (suc zero))) lt = d
below_eight P a b c d e f g h (suc (suc (suc (suc zero)))) lt = e
below_eight P a b c d e f g h (suc (suc (suc (suc (suc zero))))) lt = f
below_eight P a b c d e f g h (suc (suc (suc (suc (suc (suc zero)))))) lt = g
below_eight P a b c d e f g h (suc (suc (suc (suc (suc (suc (suc zero))))))) lt = h
below_eight P a b c d e f g h (suc (suc (suc (suc (suc (suc (suc (suc i)))))))) lt =
    absurd (omega arith)

clear_0 : (x j : ℕ) → j < 8 → bit (clear_bit x 0) j ≡ (if 0 == j then 0 else bit x j)
unfolding clear_bit
clear_0 x =
    below_eight (λ j. bit (clear_bit x 0) j ≡ (if 0 == j then 0 else bit x j)) (omega arith)
      (omega arith) (omega arith) (omega arith) (omega arith) (omega arith) (omega arith)
      (omega arith)

clear_1 : (x j : ℕ) → j < 8 → bit (clear_bit x 1) j ≡ (if 1 == j then 0 else bit x j)
unfolding clear_bit
clear_1 x =
    below_eight (λ j. bit (clear_bit x 1) j ≡ (if 1 == j then 0 else bit x j)) (omega arith)
      (omega arith) (omega arith) (omega arith) (omega arith) (omega arith) (omega arith)
      (omega arith)

clear_2 : (x j : ℕ) → j < 8 → bit (clear_bit x 2) j ≡ (if 2 == j then 0 else bit x j)
unfolding clear_bit
clear_2 x =
    below_eight (λ j. bit (clear_bit x 2) j ≡ (if 2 == j then 0 else bit x j)) (omega arith)
      (omega arith) (omega arith) (omega arith) (omega arith) (omega arith) (omega arith)
      (omega arith)

clear_3 : (x j : ℕ) → j < 8 → bit (clear_bit x 3) j ≡ (if 3 == j then 0 else bit x j)
unfolding clear_bit
clear_3 x =
    below_eight (λ j. bit (clear_bit x 3) j ≡ (if 3 == j then 0 else bit x j)) (omega arith)
      (omega arith) (omega arith) (omega arith) (omega arith) (omega arith) (omega arith)
      (omega arith)

clear_4 : (x j : ℕ) → j < 8 → bit (clear_bit x 4) j ≡ (if 4 == j then 0 else bit x j)
unfolding clear_bit
clear_4 x =
    below_eight (λ j. bit (clear_bit x 4) j ≡ (if 4 == j then 0 else bit x j)) (omega arith)
      (omega arith) (omega arith) (omega arith) (omega arith) (omega arith) (omega arith)
      (omega arith)

clear_5 : (x j : ℕ) → j < 8 → bit (clear_bit x 5) j ≡ (if 5 == j then 0 else bit x j)
unfolding clear_bit
clear_5 x =
    below_eight (λ j. bit (clear_bit x 5) j ≡ (if 5 == j then 0 else bit x j)) (omega arith)
      (omega arith) (omega arith) (omega arith) (omega arith) (omega arith) (omega arith)
      (omega arith)

clear_6 : (x j : ℕ) → j < 8 → bit (clear_bit x 6) j ≡ (if 6 == j then 0 else bit x j)
unfolding clear_bit
clear_6 x =
    below_eight (λ j. bit (clear_bit x 6) j ≡ (if 6 == j then 0 else bit x j)) (omega arith)
      (omega arith) (omega arith) (omega arith) (omega arith) (omega arith) (omega arith)
      (omega arith)

clear_7 : (x j : ℕ) → j < 8 → bit (clear_bit x 7) j ≡ (if 7 == j then 0 else bit x j)
unfolding clear_bit
clear_7 x =
    below_eight (λ j. bit (clear_bit x 7) j ≡ (if 7 == j then 0 else bit x j)) (omega arith)
      (omega arith) (omega arith) (omega arith) (omega arith) (omega arith) (omega arith)
      (omega arith)

pub bit-clear_bit :
    (x i j : ℕ) → i < 8 → j < 8 → bit (clear_bit x i) j ≡ (if i == j then 0 else bit x j)
bit-clear_bit x i j li lj =
    below_eight (λ i. bit (clear_bit x i) j ≡ (if i == j then 0 else bit x j)) (clear_0 x j lj)
      (clear_1 x j lj) (clear_2 x j lj) (clear_3 x j lj) (clear_4 x j lj) (clear_5 x j lj)
      (clear_6 x j lj) (clear_7 x j lj) i li

set_0 : (x j : ℕ) → j < 8 → bit (set_bit x 0) j ≡ (if 0 == j then 1 else bit x j)
unfolding set_bit
set_0 x =
    below_eight (λ j. bit (set_bit x 0) j ≡ (if 0 == j then 1 else bit x j)) (omega arith)
      (omega arith) (omega arith) (omega arith) (omega arith) (omega arith) (omega arith)
      (omega arith)

set_1 : (x j : ℕ) → j < 8 → bit (set_bit x 1) j ≡ (if 1 == j then 1 else bit x j)
unfolding set_bit
set_1 x =
    below_eight (λ j. bit (set_bit x 1) j ≡ (if 1 == j then 1 else bit x j)) (omega arith)
      (omega arith) (omega arith) (omega arith) (omega arith) (omega arith) (omega arith)
      (omega arith)

set_2 : (x j : ℕ) → j < 8 → bit (set_bit x 2) j ≡ (if 2 == j then 1 else bit x j)
unfolding set_bit
set_2 x =
    below_eight (λ j. bit (set_bit x 2) j ≡ (if 2 == j then 1 else bit x j)) (omega arith)
      (omega arith) (omega arith) (omega arith) (omega arith) (omega arith) (omega arith)
      (omega arith)

set_3 : (x j : ℕ) → j < 8 → bit (set_bit x 3) j ≡ (if 3 == j then 1 else bit x j)
unfolding set_bit
set_3 x =
    below_eight (λ j. bit (set_bit x 3) j ≡ (if 3 == j then 1 else bit x j)) (omega arith)
      (omega arith) (omega arith) (omega arith) (omega arith) (omega arith) (omega arith)
      (omega arith)

set_4 : (x j : ℕ) → j < 8 → bit (set_bit x 4) j ≡ (if 4 == j then 1 else bit x j)
unfolding set_bit
set_4 x =
    below_eight (λ j. bit (set_bit x 4) j ≡ (if 4 == j then 1 else bit x j)) (omega arith)
      (omega arith) (omega arith) (omega arith) (omega arith) (omega arith) (omega arith)
      (omega arith)

set_5 : (x j : ℕ) → j < 8 → bit (set_bit x 5) j ≡ (if 5 == j then 1 else bit x j)
unfolding set_bit
set_5 x =
    below_eight (λ j. bit (set_bit x 5) j ≡ (if 5 == j then 1 else bit x j)) (omega arith)
      (omega arith) (omega arith) (omega arith) (omega arith) (omega arith) (omega arith)
      (omega arith)

set_6 : (x j : ℕ) → j < 8 → bit (set_bit x 6) j ≡ (if 6 == j then 1 else bit x j)
unfolding set_bit
set_6 x =
    below_eight (λ j. bit (set_bit x 6) j ≡ (if 6 == j then 1 else bit x j)) (omega arith)
      (omega arith) (omega arith) (omega arith) (omega arith) (omega arith) (omega arith)
      (omega arith)

set_7 : (x j : ℕ) → j < 8 → bit (set_bit x 7) j ≡ (if 7 == j then 1 else bit x j)
unfolding set_bit
set_7 x =
    below_eight (λ j. bit (set_bit x 7) j ≡ (if 7 == j then 1 else bit x j)) (omega arith)
      (omega arith) (omega arith) (omega arith) (omega arith) (omega arith) (omega arith)
      (omega arith)

pub bit-set_bit :
    (x i j : ℕ) → i < 8 → j < 8 → bit (set_bit x i) j ≡ (if i == j then 1 else bit x j)
bit-set_bit x i j li lj =
    below_eight (λ i. bit (set_bit x i) j ≡ (if i == j then 1 else bit x j)) (set_0 x j lj)
      (set_1 x j lj) (set_2 x j lj) (set_3 x j lj) (set_4 x j lj) (set_5 x j lj) (set_6 x j lj)
      (set_7 x j lj) i li
