-- ===== src/Mem/Live.antt =====
-- The blocks in use of the heap of src/mem.c, as their callers see them: by payload address.
use x.Base.{
  ℕ, ◌+◌, ◌-◌, ◌≤◌, ◌<◌, ◌≡◌, refl, ap, ◌&&◌, arith, ◌==◌, if◌then◌else◌, ◌⊎◌, inl, inr, List, [],
  ◌∷◌, ◌++◌, leb, Bool-cases,
}
use x.Mem.Blocks.{Block, in_use, unused, total, Tiles}
use x.Mem.Alloc.{carve}
use x.Mem.Free.{absorb, release}

-- The sum of `f size` over the blocks in use with payload `p`, among the blocks from address `a` on.
abbrev pub weigh : (ℕ → ℕ) → ℕ → ℕ → List Block → ℕ
weigh f p a [] = 0
weigh f p a (b ∷ bs) =
    (if b.used && ((a + 4) == p) then f b.size else 0) + weigh f p (a + b.size) bs

-- how many blocks in use have the payload `p`, and how large they are
abbrev pub blocks_at : ℕ → ℕ → List Block → ℕ
blocks_at = weigh (λ s. 1)

abbrev pub bytes_at : ℕ → ℕ → List Block → ℕ
bytes_at = weigh (λ s. s)

pub weigh-append :
    (f : ℕ → ℕ) (p a : ℕ) (bs cs : List Block)
    → weigh f p a (bs ++ cs) ≡ weigh f p a bs + weigh f p (a + total bs) cs
weigh-append f p a [] cs = let e : a + 0 ≡ a = omega arith in rw e (omega arith)
weigh-append f p a (b ∷ bs) cs =
    let e : a + (b.size + total bs) ≡ a + b.size + total bs = omega arith in
    rw e (omega (arith, weigh-append f p (a + b.size) bs cs))

pub weigh-range :
    (w : ℕ → ℕ) (f : ℕ → ℕ) (p a : ℕ) (bs : List Block)
    → Tiles w a bs
    → (p < a + 4) ⊎ (a + total bs ≤ p)
    → weigh f p a bs ≡ 0
weigh-range w f p a [] t out = refl
weigh-range w f p a (b ∷ bs) t out = ground (arith, weigh-range w f p (a + b.size) bs t.3)

-- A payload belongs to one block at most.
pub blocks_at-le : (w : ℕ → ℕ) (p a : ℕ) (bs : List Block) → Tiles w a bs → blocks_at p a bs ≤ 1
blocks_at-le w p a [] t = omega arith
blocks_at-le w p a (b ∷ bs) t =
    ground
      (arith, blocks_at-le w p (a + b.size) bs t.3, weigh-range w (λ s. 1) p (a + b.size) bs t.3)

-- The block of a payload lies in the range.
pub bytes_at-within :
    (w : ℕ → ℕ) (p a : ℕ) (bs : List Block)
    → Tiles w a bs
    → 0 < blocks_at p a bs
    → (a + 4 ≤ p) × (p + bytes_at p a bs ≤ a + total bs + 4)
bytes_at-within w p a [] t h = absurd (omega arith)
bytes_at-within w p a (b ∷ bs) t h =
    ground
      (arith, bytes_at-within w p (a + b.size) bs t.3, weigh-range w (λ s. s) p (a + b.size) bs t.3)

-- Blocks in use do not overlap.
pub bytes_at-apart :
    (w : ℕ → ℕ) (p q a : ℕ) (bs : List Block)
    → Tiles w a bs
    → 0 < blocks_at p a bs
    → 0 < blocks_at q a bs
    → p < q
    → p + bytes_at p a bs ≤ q
bytes_at-apart w p q a [] t h k lt = absurd (omega arith)
bytes_at-apart w p q a (b ∷ bs) t h k lt = ground (
  arith,
  bytes_at-apart w p q (a + b.size) bs t.3,
  weigh-range w (λ s. s) p (a + b.size) bs t.3,
  weigh-range w (λ s. 1) q (a + b.size) bs t.3,
  bytes_at-within w q (a + b.size) bs t.3,
  bytes_at-within w p (a + b.size) bs t.3,
)

-- `mem_alloc` adds one block in use, of at least the block size asked for.
pub weigh-carve :
    (f : ℕ → ℕ) (p a n s : ℕ) (pre post : List Block)
    → weigh f p a (pre ++ (carve n s ++ post))
      ≡ weigh f p a (pre ++ unused s ∷ post)
        + (if (a + total pre + 4) == p then f (if leb (n + 16) s then n else s) else 0)
weigh-carve f p a n s [] post =
    let e : a + 0 ≡ a = omega arith in
    rw e (elim (Bool-cases (leb (n + 16) s)) [
      | inl large ↦
          let end : a + n + (s - n) ≡ a + s = ground arith in rw (large, end) (ground arith)
      | inr small ↦ rw small (ground arith)
    ])
weigh-carve f p a n s (b ∷ pre) post =
    let e : a + (b.size + total pre) ≡ a + b.size + total pre = omega arith in
    rw e (omega (arith, weigh-carve f p (a + b.size) n s pre post))

absorb-weigh :
    (f : ℕ → ℕ) (p a s : ℕ) (post : List Block)
    → weigh f p a (absorb s post) ≡ weigh f p (a + s) post
unfolding absorb
absorb-weigh f p a s [] = refl
absorb-weigh f p a s (b ∷ post) =
    let e : a + s + b.size ≡ a + (s + b.size) = omega arith in rw e (ground arith)

-- `mem_free` takes away that block, and no other.
pub weigh-release :
    (f : ℕ → ℕ) (p a s : ℕ) (pre post : List Block)
    → weigh f p a (release pre s post) + (if (a + total pre + 4) == p then f s else 0)
      ≡ weigh f p a (pre ++ in_use s ∷ post)
unfolding release
weigh-release f p a s [] post =
    let e : a + 0 ≡ a = omega arith in rw e (omega (arith, absorb-weigh f p a s post))
weigh-release f p a s (b ∷ []) post =
    let e : a + (b.size + 0) ≡ a + b.size = omega arith in
    let end : a + (b.size + s) ≡ a + b.size + s = omega arith in
    rw e (elim (Bool-cases b.used) [
      | inl u ↦ simp u (ground (arith, absorb-weigh f p (a + b.size) s post))
      | inr free ↦
          simp free
            (ground (arith, absorb-weigh f p a (b.size + s) post, ap (λ t. weigh f p t post) end))
    ])
weigh-release f p a s (b ∷ c ∷ pre) post =
    let e : a + (b.size + total (c ∷ pre)) ≡ a + b.size + total (c ∷ pre) = omega arith in
    rw e (omega (arith, weigh-release f p (a + b.size) s (c ∷ pre) post))
