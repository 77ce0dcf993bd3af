-- ===== src/MemPool/Alloc.antt =====
-- `memory_pool_init` and `memory_pool_alloc`: the invariant, the pointers that are out and the best
-- fit.
use cursor_embed_cus_mqtt_su.Base.{
  ℕ, zero, suc, ◌+◌, ◌-◌, ◌≤◌, ◌<◌, ◌≡◌, refl, sym, ◌∙◌, arith, true, false, List, [], ◌∷◌, ◌++◌,
  Option, none, some, ◌⊎◌, inl, inr, ◌==◌, All,
}
use cursor_embed_cus_mqtt_su.MemPool.{
  Block, MemPool, header_size, size_mod, align8, find_best, carve, granted, take_block, take_best,
  memory_pool_init, memory_pool_alloc,
}
use cursor_embed_cus_mqtt_su.MemPool.Fit.{Fits, Found, NoneBeats, find_best_lem}
use cursor_embed_cus_mqtt_su.MemPool.Tiling.{
  Tiles, Tiles-le, cut, join, live, live-append, taken, taken-append, replace_at_lem, carve-Tiles,
  live-carve, taken-carve,
}

-- The blocks tile the pool, `used_size` is what the blocks in use take, and the peak bounds it.
pub record IsValid (p : MemPool) : Type 0 where
  pub tiles : Tiles 0 p.blocks p.total_size
  pub small : p.total_size < size_mod - 8
  pub used : p.used_size ≡ taken p.blocks
  pub peak : p.used_size ≤ p.peak_use
  pub bounded : p.peak_use ≤ p.total_size

-- The pool that `memory_pool_init` makes is valid: the blocks tile it, `used_size` is what the blocks
-- in use take, and the peak bounds it.
pub memory_pool_init-IsValid : {p : MemPool} → memory_pool_init true true ≡ some p → IsValid p
unfolding memory_pool_init
memory_pool_init-IsValid e = ground arith

-- No block is as large as SIZE_MAX.
blocks_small :
    (a e limit : ℕ) (bs : List Block) → e ≤ limit → Tiles a bs e → All (λ b. b.size < limit) bs
blocks_small a e limit [] h t = tt
blocks_small a e limit (b ∷ bs) h t = (
  omega (arith, Tiles-le (a + header_size + b.size) e bs t.1),
  blocks_small (a + header_size + b.size) e limit bs h t.1,
)

-- What an alloc does where the search has found a block.
module _ (p : MemPool) (size : ℕ) (v : IsValid p)
    (f : Found size p.blocks (find_best size p.blocks none (size_mod - 1))) where
  open f use {front, block, back}

  abbrev pub after : MemPool
  after = take_block p size (block.size - size) block.addr

  pub blocks_after : after.blocks ≡ front ++ (carve size (block.size - size) block ++ back)
  unfolding take_block
  blocks_after = rw f.there (
      replace_at_lem front back block (carve size (block.size - size)) 0 p.total_size
        (rw f.there at v.tiles))

  Tiles-after : Tiles 0 after.blocks p.total_size
  Tiles-after =
      let (m, l, r) = cut front (block ∷ back) 0 p.total_size (rw f.there at v.tiles) in
      rw blocks_after (
        join front _ 0 m p.total_size l (
          join (carve size (block.size - size) block) back m (m + header_size + block.size)
            p.total_size (carve-Tiles size block m _ f.fits.1 (r.0, refl)) r.1))

  live_before : live p.blocks ≡ live front ++ live back
  live_before = rw f.there (live-append front (block ∷ back) ∙ ground (arith, f.fits.0))

  live_after :
      live after.blocks
      ≡ live front ++ ((block.addr + header_size, granted size (block.size - size)) ∷ live back)
  live_after =
      rw
        (
          blocks_after,
          live-append front (carve size (block.size - size) block ++ back),
          live-append (carve size (block.size - size) block) back,
          live-carve size block f.fits.1,
        )
        refl

  taken_after :
      taken after.blocks ≡ taken p.blocks + (granted size (block.size - size) + header_size)
  taken_after = rw (blocks_after) (
      omega (
        arith,
        taken-append front (carve size (block.size - size) block ++ back),
        taken-append (carve size (block.size - size) block) back,
        taken-carve size block f.fits.1,
        taken_before,
      ))
    where
      free_block : taken (block ∷ back) ≡ taken back
      free_block = ground (arith, f.fits.0)

      taken_before : taken p.blocks ≡ taken front + taken back
      taken_before = rw f.there (omega (arith, taken-append front (block ∷ back), free_block))

  used_after : after.used_size ≡ taken after.blocks
  used_after =
      unfold take_block in
      omega (arith, taken_after, v.used, v.small, Tiles-le 0 p.total_size after.blocks Tiles-after)

  used_small : after.used_size ≤ p.total_size
  used_small = omega (arith, used_after, Tiles-le 0 p.total_size after.blocks Tiles-after)

  pub after-IsValid : IsValid after
  after-IsValid = record {
    tiles = unfold take_block in Tiles-after;
    small = unfold take_block in v.small;
    used = used_after;
    peak = unfold take_block in ground arith;
    bounded = unfold take_block in ground (arith, used_small, v.bounded);
  }

granted-le : (size diff : ℕ) → size ≤ granted size diff
unfolding granted
granted-le size diff = ground arith

least_size :
    (size : ℕ) (b : Block) (bs : List Block)
    → Fits size b
    → NoneBeats size (b.size - size) bs
    → All (λ c. Fits size c → b.size ≤ c.size) bs
least_size size b [] fits h = tt
least_size size b (c ∷ bs) fits h =
    ((λ k. omega (arith, fits.1, k.1, h.0 k)), least_size size b bs fits h.1)

-- The two ways in which an alloc of at least a byte ends.
pub alloc_cases :
    (p : MemPool) (size : ℕ) (v : IsValid p)
    → 0 < size
    → ((memory_pool_alloc p size ≡ (none, p)) × All (λ b. ¬ Fits (align8 size) b) p.blocks)
      ⊎ ((f : Found (align8 size) p.blocks (find_best (align8 size) p.blocks none (size_mod - 1)))
          × (memory_pool_alloc p size
              ≡ (some (f.block.addr + header_size), after p (align8 size) v f)))
unfolding memory_pool_alloc take_best
alloc_cases p size v h =
    let e : (size == 0) ≡ false = ground arith in
    elim (find_best_lem (align8 size) (size_mod - 1) p.blocks
      (blocks_small 0 p.total_size (size_mod - 1) p.blocks (omega (arith, v.small)) v.tiles)) [
        | inl (missed, nothing) ↦ inl (rw (e, missed, take_best) refl, nothing)
        | inr f ↦ inr (f, rw (e, f.found, take_best) refl)
      ]

pub alloc_zero : (p : MemPool) → memory_pool_alloc p 0 ≡ (none, p)
unfolding memory_pool_alloc
alloc_zero p = refl

-- `memory_pool_alloc` takes a valid pool to a valid pool, whatever the size and whether or not it
-- gives a pointer.
pub alloc-IsValid : (p : MemPool) (size : ℕ) → IsValid p → IsValid (memory_pool_alloc p size).1
alloc-IsValid p zero v = rw (alloc_zero p) v
alloc-IsValid p (suc n) v = elim (alloc_cases p (suc n) v (omega arith)) [
  | inl (e, nothing) ↦ rw e v
  | inr (f, e) ↦ rw e (after-IsValid p (align8 (suc n)) v f)
]

pub same_result :
    {a b : ℕ} {p q : MemPool}
    → ◌≡◌ {A = Option ℕ × MemPool} (some a, p) (some b, q)
    → (a ≡ b) × (p ≡ q)
same_result e = (cc, cc)

-- A pointer that an alloc from a valid pool gives is out afterwards, with at least the size asked for,
-- rounded up by `align8`; the other pointers that are out are those that were out before, in their
-- order and with their sizes.
pub alloc_live :
    (p q : MemPool) (size ptr : ℕ)
    → IsValid p
    → memory_pool_alloc p size ≡ (some ptr, q)
    → (front : List (ℕ × ℕ)) × (back : List (ℕ × ℕ)) × (g : ℕ) × (live p.blocks ≡ front ++ back)
      × (live q.blocks ≡ front ++ ((ptr, g) ∷ back))
      × (align8 size ≤ g)
alloc_live p q zero ptr v e = cc (alloc_zero p)
alloc_live p q (suc n) ptr v e = elim (alloc_cases p (suc n) v (omega arith)) [
  | inl (e', nothing) ↦ cc (e')
  | inr (f, e') ↦ (
    live f.front,
    live f.back,
    granted (align8 (suc n)) (f.block.size - align8 (suc n)),
    live_before p (align8 (suc n)) v f,
    let (at, is) = same_result (sym e' ∙ e) in rw (← at, ← is) (live_after p (align8 (suc n)) v f),
    granted-le (align8 (suc n)) (f.block.size - align8 (suc n)),
  )
]

-- The block that an alloc from a valid pool takes was free and had the room for the rounded size, and
-- no free block with the room was smaller.
pub alloc_best_fit :
    (p q : MemPool) (size ptr : ℕ)
    → IsValid p
    → memory_pool_alloc p size ≡ (some ptr, q)
    → (front : List Block) × (b : Block) × (back : List Block) × (p.blocks ≡ front ++ (b ∷ back))
      × (ptr ≡ b.addr + header_size)
      × Fits (align8 size) b
      × All (λ c. Fits (align8 size) c → b.size ≤ c.size) p.blocks
alloc_best_fit p q zero ptr v e = cc (alloc_zero p)
alloc_best_fit p q (suc n) ptr v e = elim (alloc_cases p (suc n) v (omega arith)) [
  | inl (e', nothing) ↦ cc (e')
  | inr (f, e') ↦ (
    f.front,
    f.block,
    f.back,
    f.there,
    cc e',
    f.fits,
    least_size (align8 (suc n)) f.block p.blocks f.fits f.least,
  )
]

-- From a valid pool, NULL comes back for a positive size only where no free block has the room for
-- the rounded size, and then the pool is unchanged.
pub alloc_null :
    (p q : MemPool) (size : ℕ)
    → IsValid p
    → 0 < size
    → memory_pool_alloc p size ≡ (none, q)
    → (q ≡ p) × All (λ b. ¬ Fits (align8 size) b) p.blocks
alloc_null p q size v h e = elim (alloc_cases p size v h) [
  | inl (e', nothing) ↦ (cc (e'), nothing)
  | inr (f, e') ↦ cc (e')
]
