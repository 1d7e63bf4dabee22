-- ===== src/Mem/Regions.antt =====
-- What the callers of src/mem.c hold, against the blocks in use of the heap.
use x.Base.{
  ℕ, ◌+◌, ◌≤◌, ◌<◌, ◌≡◌, ◌≢◌, ap, true, ◌&&◌, arith, ◌==◌, if◌then◌else◌, inl, inr, List, [], ◌∷◌,
  ◌++◌, Bool-cases,
}
use x.Mem.Blocks.{Block, in_use, total}
use x.Mem.Live.{blocks_at, bytes_at}

-- A pointer and the size that was asked for.
abbrev pub Region : Type 0
Region = ℕ × ℕ

abbrev pub count_ptr : ℕ → List Region → ℕ
count_ptr p [] = 0
count_ptr p ((q, n) ∷ live) = (if q == p then 1 else 0) + count_ptr p live

abbrev pub erase_ptr : ℕ → List Region → List Region
erase_ptr p [] = []
erase_ptr p ((q, n) ∷ live) = if q == p then live else (q, n) ∷ erase_ptr p live

-- Each region fits, with two boundary tags, into the block in use at its pointer.
abbrev pub Held : ℕ → List Block → List Region → Type 0
Held a bs [] = Unit {0}
Held a bs ((p, n) ∷ live) = (n + 8 ≤ bytes_at p a bs) × Held a bs live

pub Held-mono :
    (a : ℕ) (bs cs : List Block) (live : List Region)
    → ((p : ℕ) → bytes_at p a bs ≤ bytes_at p a cs)
    → Held a bs live
    → Held a cs live
Held-mono a bs cs [] le h = tt
Held-mono a bs cs ((p, n) ∷ live) le h = (omega (arith, h.0, le p), Held-mono a bs cs live le h.1)

pub Held-other :
    (a p : ℕ) (bs cs : List Block) (live : List Region)
    → ((q : ℕ) → q ≢ p → bytes_at q a bs ≡ bytes_at q a cs)
    → count_ptr p live ≡ 0
    → Held a bs live
    → Held a cs live
Held-other a p bs cs [] same absent h = tt
Held-other a p bs cs ((q, n) ∷ live) same absent h =
    (ground (arith, h.0, same q), Held-other a p bs cs live same (omega arith) h.1)

pub Held-erase :
    (a p : ℕ) (bs cs : List Block) (live : List Region)
    → ((q : ℕ) → q ≢ p → bytes_at q a bs ≡ bytes_at q a cs)
    → count_ptr p live ≤ 1
    → Held a bs live
    → Held a cs (erase_ptr p live)
Held-erase a p bs cs [] same one h = tt
Held-erase a p bs cs ((q, n) ∷ live) same one h = elim (Bool-cases (q == p)) [
  | inl e ↦ rw e (Held-other a p bs cs live same (ground arith) h.1)
  | inr e ↦ rw e (ground (arith, h.0, same q), Held-erase a p bs cs live same (omega arith) h.1)
]

pub count_ptr-erase :
    (p q : ℕ) (live : List Region)
    → 0 < count_ptr p live
    → count_ptr q (erase_ptr p live) + (if p == q then 1 else 0) ≡ count_ptr q live
count_ptr-erase p q [] h = absurd (omega arith)
count_ptr-erase p q ((r, n) ∷ live) h = ground (arith, count_ptr-erase p q live)

-- The block in use with payload `p`.
pub record UsedBlock (bs : List Block) (a p : ℕ) : Type 0 where
  pub pre : List Block
  pub size : ℕ
  pub post : List Block
  pub split : bs ≡ pre ++ in_use size ∷ post
  pub place : p ≡ a + total pre + 4

eq_in_use : (b : Block) → b.used ≡ true → b ≡ in_use b.size
eq_in_use b e = λ i. record { size = b.size; used = e i }

UsedBlock-cons :
    (b : Block) {bs : List Block} {a p : ℕ} → UsedBlock bs (a + b.size) p → UsedBlock (b ∷ bs) a p
UsedBlock-cons b u = record {
  pre = b ∷ u.pre;
  size = u.size;
  post = u.post;
  split = ap (λ bs. b ∷ bs) u.split;
  place = omega (arith, u.place);
}

pub used_block : (bs : List Block) (a p : ℕ) → 0 < blocks_at p a bs → UsedBlock bs a p
used_block [] a p h = absurd (omega arith)
used_block (b ∷ bs) a p h = elim (Bool-cases (b.used && ((a + 4) == p))) [
  | inl here ↦ record {
    pre = [];
    size = b.size;
    post = bs;
    split = ap (λ c. c ∷ bs) (eq_in_use b (ground arith));
    place = ground arith;
  }
  | inr other ↦ UsedBlock-cons b (used_block bs (a + b.size) p (ground arith))
]

pub count_ptr-append :
    (p : ℕ) (xs ys : List Region) → count_ptr p (xs ++ ys) ≡ count_ptr p xs + count_ptr p ys
count_ptr-append p [] ys = omega arith
count_ptr-append p ((q, n) ∷ xs) ys = omega (arith, count_ptr-append p xs ys)

pub Held-rest :
    (a : ℕ) (bs : List Block) (xs ys : List Region) → Held a bs (xs ++ ys) → Held a bs ys
Held-rest a bs [] ys h = h
Held-rest a bs ((p, n) ∷ xs) ys h = Held-rest a bs xs ys h.1
