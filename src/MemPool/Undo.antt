-- ===== src/MemPool/Undo.antt =====
-- A free undoes the alloc that gave the pointer; and sizes near SIZE_MAX wrap to nothing.
use cursor_embed_cus_mqtt_su.Base.{
  ℕ, zero, suc, ◌+◌, ◌-◌, ◌≤◌, ◌<◌, ◌≡◌, refl, sym, ap, ◌∙◌, arith, true, false, ◌&&◌, List, [],
  ◌∷◌, ◌++◌, none, some, inl, inr, leb, if◌then◌else◌, Bool-cases, All-middle,
}
use cursor_embed_cus_mqtt_su.MemPool.{
  Block, MemPool, header_size, size_mod, align8, find_best, carve, granted, take_block,
  memory_pool_alloc, coalesce, merge_from, release, memory_pool_free,
}
use cursor_embed_cus_mqtt_su.MemPool.Fit.{Fits, Found}
use cursor_embed_cus_mqtt_su.MemPool.Tiling.{Tiles-le, cut}
use cursor_embed_cus_mqtt_su.MemPool.Merge.{IsMerged, coalesce-eq}
use cursor_embed_cus_mqtt_su.MemPool.Alloc.{
  IsValid, alloc_cases, after, alloc_zero, same_result, blocks_after, after-IsValid,
}
use cursor_embed_cus_mqtt_su.MemPool.Free.{free_lem, release_blocks}

-- Two free neighbours merge as one block of their joint size does.
module _ (a s t : ℕ) (small : s + header_size + t < size_mod) where
  abbrev low : Block
  low = record { addr = a; size = s; is_free = true }

  abbrev high : Block
  high = record { addr = a + header_size + s; size = t; is_free = true }

  abbrev whole : Block
  whole = record { addr = a; size = s + header_size + t; is_free = true }

  merge_pair :
      (b : Block) (back : List Block)
      → merge_from b (low ∷ (high ∷ back)) ≡ merge_from b (whole ∷ back)
  unfolding merge_from
  merge_pair b back = elim (Bool-cases b.is_free) [
    | inl free ↦ rw free (
        ap (λ (z : ℕ). merge_from (record { addr = b.addr; size = z; is_free = true }) back)
          (omega arith))
    | inr held ↦ rw held (
        ap
          (λ (z : ℕ).
            record b { is_free = false }
            ∷ merge_from (record { addr = a; size = z; is_free = true }) back)
          (omega arith))
  ]

  merge_behind :
      (b : Block) (front back : List Block)
      → merge_from b (front ++ (low ∷ (high ∷ back))) ≡ merge_from b (front ++ (whole ∷ back))
  unfolding merge_from
  merge_behind b [] back = merge_pair b back
  merge_behind b (c ∷ front) back = elim (Bool-cases (b.is_free && c.is_free)) [
    | inl both ↦ rw both (merge_behind _ front back)
    | inr apart ↦ rw apart (ap (λ l. b ∷ l) (merge_behind c front back))
  ]

  coalesce_pair :
      (front back : List Block)
      → coalesce (front ++ (low ∷ (high ∷ back))) ≡ coalesce (front ++ (whole ∷ back))
  unfolding coalesce merge_from
  coalesce_pair [] back =
      ap (λ (z : ℕ). merge_from (record { addr = a; size = z; is_free = true }) back) (omega arith)
  coalesce_pair (b ∷ front) back = merge_behind b front back

-- What is left over of a block, as a list.
abbrev spare : ℕ → Block → List Block
spare size b =
    if leb (header_size + 8) (b.size - size)
    then record {
      addr = b.addr + header_size + size;
      size = b.size - size - header_size;
      is_free = true;
    }
      ∷ []
    else []

carve_eq :
    (size : ℕ) (b : Block)
    → size ≤ b.size
    → carve size (b.size - size) b
      ≡ record b { size = granted size (b.size - size); is_free = false } ∷ spare size b
unfolding carve granted
carve_eq size b h = ground arith

granted-le-size : (size : ℕ) (b : Block) → size ≤ b.size → granted size (b.size - size) ≤ b.size
unfolding granted
granted-le-size size b h = ground arith

rejoin :
    (size : ℕ) (b : Block) (front back : List Block)
    → Fits size b
    → b.size < size_mod
    → coalesce (
        front
        ++ (record b { size = granted size (b.size - size); is_free = true }
            ∷ (spare size b ++ back)))
      ≡ coalesce (front ++ (b ∷ back))
unfolding granted
rejoin size b front back fits h = elim (Bool-cases (leb (header_size + 8) (b.size - size))) [
  | inl split ↦ rw split (
      coalesce_pair b.addr size (b.size - size - header_size) (ground (arith, split)) front back
      ∙ ap (λ (c : Block). coalesce (front ++ (c ∷ back))) (ground (arith, split, fits.0, fits.1)))
  | inr kept ↦
      rw kept (ap (λ (c : Block). coalesce (front ++ (c ∷ back))) (ground (arith, fits.0, fits.1)))
]

-- The alloc of a found block, undone.
module _ (p : MemPool) (size : ℕ) (v : IsValid p)
    (f : Found size p.blocks (find_best size p.blocks none (size_mod - 1)))
    (m : IsMerged p.blocks) where
  abbrev chosen : Block
  chosen = record (f.block) { size = granted size (f.block.size - size); is_free = false }

  chosen_there : (after p size v f).blocks ≡ f.front ++ (chosen ∷ (spare size f.block ++ f.back))
  chosen_there = rw (blocks_after p size v f, carve_eq size f.block f.fits.1) refl

  wide : f.block.size + header_size ≤ p.total_size
  wide =
      let (k, l, r) = cut f.front (f.block ∷ f.back) 0 p.total_size (rw f.there at v.tiles) in
      omega (arith, Tiles-le (k + header_size + f.block.size) p.total_size f.back r.1)

  undone_blocks : (release (after p size v f) chosen).blocks ≡ p.blocks
  undone_blocks =
      release_blocks (after p size v f) f.front (spare size f.block ++ f.back) chosen
        (after-IsValid p size v f) chosen_there
      ∙ rejoin size f.block f.front f.back f.fits (omega (arith, wide, v.small))
      ∙ rw (← f.there) (coalesce-eq p.blocks m)

  undone_used : (release (after p size v f) chosen).used_size ≡ p.used_size
  undone_used =
      unfold release take_block in
      omega (arith, granted-le-size size f.block f.fits.1, wide, v.small, v.peak, v.bounded)

-- In a valid pool with no two free neighbours, freeing what an alloc gave puts the blocks and `used_size`
-- back as they were.
pub alloc_then_free :
    (p q : MemPool) (size ptr : ℕ)
    → IsValid p
    → IsMerged p.blocks
    → memory_pool_alloc p size ≡ (some ptr, q)
    → (r : MemPool) × (memory_pool_free q (some ptr) ≡ some r)
      × (r.blocks ≡ p.blocks)
      × (r.used_size ≡ p.used_size)
alloc_then_free p q zero ptr v m e = cc (alloc_zero p)
alloc_then_free p q (suc n) ptr v m e = elim (alloc_cases p (suc n) v (omega arith)) [
  | inl (e', nothing) ↦ cc e'
  | inr (f, e') ↦
      let (at, is) = same_result (sym e' ∙ e) in
      rw (← at, ← is)
        (
          release (after p (align8 (suc n)) v f) (chosen p (align8 (suc n)) v f m),
          free_lem _ _ _ (chosen p (align8 (suc n)) v f m) (after-IsValid p (align8 (suc n)) v f)
              (chosen_there p (align8 (suc n)) v f m),
          undone_blocks p (align8 (suc n)) v f m,
          undone_used p (align8 (suc n)) v f m,
        )
]

-- A size above SIZE_MAX - 7 wraps to 0 when it is rounded up: from a valid pool with any free block
-- the alloc gives a pointer, though the size is larger than the pool.
pub alloc_wraps :
    (p : MemPool) (size : ℕ) (front back : List Block) (b : Block)
    → IsValid p
    → size_mod - 8 < size
    → size < size_mod
    → p.blocks ≡ front ++ (b ∷ back)
    → b.is_free ≡ true
    → (ptr : ℕ) × (q : MemPool) × (memory_pool_alloc p size ≡ (some ptr, q)) × (p.total_size < size)
alloc_wraps p size front back b v lo hi there free = elim (alloc_cases p size v (omega arith)) [
  | inl (e, nothing) ↦ absurd (
      All-middle (λ c. ¬ Fits (align8 size) c) front back b (rw there at nothing)
        (free, omega (arith, zero_size)))
  | inr (f, e) ↦ (f.block.addr + header_size, after p (align8 size) v f, e, omega (arith, v.small))
]
  where
    zero_size : align8 size ≡ 0
    zero_size = unfold align8 in omega arith
