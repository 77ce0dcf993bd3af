-- ===== src/MemPool/Fit.antt =====
-- The search for the best fit: what it finds, and what it misses nothing of.
use cursor_embed_cus_mqtt_su.Base.{
  ℕ, ◌-◌, ◌≤◌, ◌<◌, ◌≡◌, refl, ap, arith, true, ◌&&◌, List, [], ◌∷◌, ◌++◌, Option, none, some, ◌⊎◌,
  inl, inr, leb, ltb, ◌==◌, Bool-cases, All,
}
use cursor_embed_cus_mqtt_su.MemPool.{Block, find_best}

-- A free block with the room.
abbrev pub Fits : ℕ → Block → Type 0
Fits size b = (b.is_free ≡ true) × (size ≤ b.size)

-- No block of the list beats `min`.
abbrev pub NoneBeats : ℕ → ℕ → List Block → Type 0
NoneBeats size min = All (λ b. Fits size b → min ≤ b.size - size)

-- Where the search ends in a block of the list.
pub record Found (size : ℕ) (blocks : List Block) (r : Option ℕ × ℕ) : Type 0 where
  pub front : List Block
  pub block : Block
  pub back : List Block
  pub there : blocks ≡ front ++ (block ∷ back)
  pub fits : Fits size block
  pub found : r ≡ (some block.addr, block.size - size)
  pub least : NoneBeats size (block.size - size) blocks

found_here :
    (size : ℕ) (b : Block) (bs : List Block) (r : Option ℕ × ℕ)
    → Fits size b
    → r ≡ (some b.addr, b.size - size)
    → NoneBeats size (b.size - size) (b ∷ bs)
    → Found size (b ∷ bs) r
found_here size b bs r fits found least = record {
  front = [];
  block = b;
  back = bs;
  there = refl;
  fits = fits;
  found = found;
  least = least;
}

NoneBeats-zero : (size min : ℕ) → min ≡ 0 → (bs : List Block) → NoneBeats size min bs
NoneBeats-zero size min e [] = tt
NoneBeats-zero size min e (b ∷ bs) = ((λ h. omega arith), NoneBeats-zero size min e bs)

nothing :
    (size limit : ℕ) (bs : List Block)
    → All (λ b. b.size < limit) bs
    → NoneBeats size limit bs
    → All (λ b. ¬ Fits size b) bs
nothing size limit [] h n = tt
nothing size limit (b ∷ bs) h n = ((λ f. omega (arith, n.0 f, h.0)), nothing size limit bs h.1 n.1)

found_later :
    (size : ℕ) (b : Block) (bs : List Block) (r : Option ℕ × ℕ)
    → (f : Found size bs r) → (Fits size b → f.block.size - size ≤ b.size - size)
    → Found size (b ∷ bs) r
found_later size b bs r f h = record {
  front = b ∷ f.front;
  block = f.block;
  back = f.back;
  there = ap (λ l. b ∷ l) f.there;
  fits = f.fits;
  found = f.found;
  least = (h, f.least);
}

-- Either nothing in the list beats what was found before, or the search ends at the best of it.
find_best_cases :
    (size : ℕ) (blocks : List Block) (best : Option ℕ) (min : ℕ)
    → ((find_best size blocks best min ≡ (best, min)) × NoneBeats size min blocks)
      ⊎ ((f : Found size blocks (find_best size blocks best min)) × (f.block.size - size < min))
unfolding find_best found_here found_later
find_best_cases size [] best min = inl (refl, tt)
find_best_cases size (b ∷ bs) best min =
    elim (Bool-cases (b.is_free && (leb size b.size && ltb (b.size - size) min))) [
      | inl better ↦ elim (Bool-cases (b.size - size == 0)) [
        | inl exact ↦
            rw (better, exact)
              (inr (
                found_here size b bs _ (ground (arith, better)) refl
                    (NoneBeats-zero size (b.size - size) (ground (arith, exact)) (b ∷ bs)),
                ground (arith, better),
              ))
        | inr loose ↦
            rw (better, loose)
              (elim (find_best_cases size bs (some b.addr) (b.size - size)) [
                | inl (e, none_beats) ↦ inr (
                  found_here size b bs _ (ground (arith, better)) e
                      ((λ h. omega arith), none_beats),
                  ground (arith, better),
                )
                | inr (f, lt) ↦
                    inr (
                      found_later size b bs _ f (λ h. omega (arith, lt)),
                      ground (arith, better, lt),
                    )
              ])
      ]
      | inr worse ↦ rw worse (elim (find_best_cases size bs best min) [
        | inl (e, none_beats) ↦ inl (e, ((λ h. ground arith), none_beats))
        | inr (f, lt) ↦ inr (found_later size b bs _ f (λ h. ground arith), lt)
      ])
    ]

-- From the start: either no block is free with room for `size`, or the search ends at one of these
-- that is as small as any.
pub find_best_lem :
    (size limit : ℕ) (blocks : List Block)
    → All (λ b. b.size < limit) blocks
    → ((find_best size blocks none limit ≡ (none, limit)) × All (λ b. ¬ Fits size b) blocks)
      ⊎ Found size blocks (find_best size blocks none limit)
find_best_lem size limit blocks h = elim (find_best_cases size blocks none limit) [
  | inl (e, none_beats) ↦ inl (e, nothing size limit blocks h none_beats)
  | inr (f, lt) ↦ inr f
]
