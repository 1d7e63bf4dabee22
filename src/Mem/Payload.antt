-- ===== src/Mem/Payload.antt =====
-- Callers of src/mem.c write to the regions they hold: the boundary tags stay as they are.
use x.Base.{
  ℕ, ◌+◌, ◌-◌, ◌≤◌, ◌<◌, ◌≡◌, refl, sym, ◌∙◌, subst, arith, ◌==◌, ◌⊎◌, inl, inr, ◌&&◌, Bool-cases,
  List, [], ◌∷◌,
}
use x.LinkedList.{LinkedList}
use x.Mem.{Heap}
use x.Mem.Blocks.{Block, Tiles}
use x.Mem.Regions.{Region}
use x.Mem.Live.{blocks_at, bytes_at, weigh-range, bytes_at-within}
use x.Mem.Account.{Accounts}

module _ (w w' : ℕ → ℕ) (p n : ℕ) (same : (q : ℕ) → (q < p) ⊎ (p + n ≤ q) → w' q ≡ w q) where
  -- The blocks behind the region.
  behind-Tiles : (a : ℕ) (bs : List Block) → p + n ≤ a → Tiles w a bs → Tiles w' a bs
  behind-Tiles a [] far t = tt
  behind-Tiles a (b ∷ bs) far t =
      let (block, first, last, rest) = t in
      (
        block,
        same a (inr far) ∙ first,
        same (a + b.size - 4) (inr (ground (arith, far, block))) ∙ last,
        behind-Tiles (a + b.size) bs (omega (arith, far)) rest,
      )

  written-Tiles :
      (a : ℕ) (bs : List Block)
      → 0 < blocks_at p a bs
      → n + 8 ≤ bytes_at p a bs
      → Tiles w a bs
      → Tiles w' a bs
  written-Tiles a [] there room t = tt
  written-Tiles a (b ∷ bs) there room t =
      let (block, first, last, rest) = t in
      elim (Bool-cases (b.used && ((a + 4) == p))) [
        | inl here ↦
            let e : a + 4 ≡ p = ground (arith, here) in
            let none_behind =
              weigh-range w (λ s. s) p (a + b.size) bs rest (inl (ground (arith, e, block))) in
            let size : n + 8 ≤ b.size = ground (arith, room, here, none_behind) in
            (
              block,
              same a (inl (omega (arith, e))) ∙ first,
              same (a + b.size - 4) (inr (omega (arith, e, size))) ∙ last,
              behind-Tiles (a + b.size) bs (omega (arith, e, size)) rest,
            )
        | inr away ↦
            let there' : 0 < blocks_at p (a + b.size) bs = ground (arith, there, away) in
            let room' : n + 8 ≤ bytes_at p (a + b.size) bs = ground (arith, room, away) in
            let within = bytes_at-within w p (a + b.size) bs rest there' in
            (
              block,
              same a (inl (omega (arith, within))) ∙ first,
              same (a + b.size - 4) (inl (omega (arith, within, room'))) ∙ last,
              written-Tiles (a + b.size) bs there' room' rest,
            )
      ]

module _ ⦃lib : LinkedList⦄ where
  -- Writes to the newest region that is held leave the heap valid.
  pub write-Accounts :
      {a : ℕ} {h : Heap} {live : List Region} (word : ℕ → ℕ) (p n : ℕ)
      → ((q : ℕ) → (q < p) ⊎ (p + n ≤ q) → word q ≡ h.word q)
      → Accounts a h ((p, n) ∷ live)
      → Accounts a (record h { word = word }) ((p, n) ∷ live)
  write-Accounts {a} {h} {live} word p n same acc = record {
    place = acc.place;
    blocks = acc.blocks;
    valid = record {
      tiled = record {
        aligned = acc.valid.tiled.aligned;
        positive = acc.valid.tiled.positive;
        fits = acc.valid.tiled.fits;
        covers = acc.valid.tiled.covers;
        tiles =
            subst (λ m. Tiles word m acc.blocks) (sym acc.place)
              (written-Tiles h.word word p n same a acc.blocks there acc.held.0
                (subst (λ m. Tiles h.word m acc.blocks) acc.place acc.valid.tiled.tiles));
        linked = acc.valid.tiled.linked;
      };
      coalesced = acc.valid.coalesced;
      unlocked = acc.valid.unlocked;
    };
    owned = acc.owned;
    held = acc.held;
  }
    where
      there : 0 < blocks_at p a acc.blocks
      there = ground (arith, acc.owned p)

  pub write-blocks :
      {a : ℕ} {h : Heap} {live : List Region} (word : ℕ → ℕ) (p n : ℕ)
      (same : (q : ℕ) → (q < p) ⊎ (p + n ≤ q) → word q ≡ h.word q)
      (acc : Accounts a h ((p, n) ∷ live))
      → (write-Accounts word p n same acc).blocks ≡ acc.blocks
  unfolding write-Accounts
  write-blocks word p n same acc = refl
