-- ===== src/MemPool/Free.antt =====
-- `memory_pool_free`: a pointer that is out can be freed, the pool is merged, and a free undoes the
-- alloc that gave the pointer.
use cursor_embed_cus_mqtt_su.Base.{
  ℕ, ◌+◌, ◌≤◌, ◌≡◌, ◌≢◌, refl, ap, arith, true, false, List, [], ◌∷◌, ◌++◌, some, inl, inr,
  Bool-cases,
}
use mathlib.Core.Option
use cursor_embed_cus_mqtt_su.MemPool.{
  Block, MemPool, header_size, find_block, freed, coalesce, release, memory_pool_free,
}
use cursor_embed_cus_mqtt_su.MemPool.Tiling.{
  Tiles, Tiles-le, cut, join, live, live-append, taken, taken-append, replace_at_lem,
}
use cursor_embed_cus_mqtt_su.MemPool.Merge.{
  coalesce-Tiles, live-coalesce, taken-coalesce, coalesce-IsMerged, IsMerged,
}
use cursor_embed_cus_mqtt_su.MemPool.Alloc.{IsValid}

-- The block of a pointer that is out.
record Owner (blocks : List Block) (fr bk : List (ℕ × ℕ)) (ptr g : ℕ) : Type 0 where
  front : List Block
  block : Block
  back : List Block
  there : blocks ≡ front ++ (block ∷ back)
  held : block.is_free ≡ false
  named : block.addr + header_size ≡ ptr
  sized : block.size ≡ g
  live_front : live front ≡ fr
  live_back : live back ≡ bk

Owner-cons_free :
    (b : Block) (bs : List Block) (fr bk : List (ℕ × ℕ)) (ptr g : ℕ)
    → b.is_free ≡ true
    → Owner bs fr bk ptr g
    → Owner (b ∷ bs) fr bk ptr g
Owner-cons_free b bs fr bk ptr g e o = record {
  front = b ∷ o.front;
  block = o.block;
  back = o.back;
  there = ap (λ l. b ∷ l) o.there;
  held = o.held;
  named = o.named;
  sized = o.sized;
  live_front = rw e o.live_front;
  live_back = o.live_back;
}

Owner-cons_held :
    (b : Block) (bs : List Block) (fr bk : List (ℕ × ℕ)) (ptr g : ℕ)
    → b.is_free ≡ false
    → Owner bs fr bk ptr g
    → Owner (b ∷ bs) ((b.addr + header_size, b.size) ∷ fr) bk ptr g
Owner-cons_held b bs fr bk ptr g e o = record {
  front = b ∷ o.front;
  block = o.block;
  back = o.back;
  there = ap (λ l. b ∷ l) o.there;
  held = o.held;
  named = o.named;
  sized = o.sized;
  live_front = rw e (ap (λ l. (b.addr + header_size, b.size) ∷ l) o.live_front);
  live_back = o.live_back;
}

cons-injective :
    {x y : ℕ × ℕ} {xs ys : List (ℕ × ℕ)}
    → ◌≡◌ {A = List (ℕ × ℕ)} (x ∷ xs) (y ∷ ys)
    → (x ≡ y) × (xs ≡ ys)
cons-injective e = (cc, cc)

owner :
    (blocks : List Block) (fr bk : List (ℕ × ℕ)) (ptr g : ℕ)
    → live blocks ≡ fr ++ ((ptr, g) ∷ bk)
    → Owner blocks fr bk ptr g
owner [] [] bk ptr g e = cc
owner [] (x ∷ fr) bk ptr g e = cc
owner (b ∷ bs) [] bk ptr g e = elim (Bool-cases b.is_free) [
  | inl free ↦ Owner-cons_free b bs [] bk ptr g free (owner bs [] bk ptr g (rw free at e))
  | inr held ↦ record {
    front = [];
    block = b;
    back = bs;
    there = refl;
    held = held;
    named = ground (arith, held);
    sized = ground (arith, held);
    live_front = refl;
    live_back = ground (arith, held);
  }
]
owner (b ∷ bs) (x ∷ fr) bk ptr g e = elim (Bool-cases b.is_free) [
  | inl free ↦
      Owner-cons_free b bs (x ∷ fr) bk ptr g free (owner bs (x ∷ fr) bk ptr g (rw free at e))
  | inr held ↦
      let (h, t) = cons-injective (rw held at e) in
      rw (← h) (Owner-cons_held b bs fr bk ptr g held (owner bs fr bk ptr g t))
]

find_block_lem :
    (front back : List Block) (b : Block) (a e : ℕ)
    → Tiles a (front ++ (b ∷ back)) e
    → find_block (b.addr + header_size) (front ++ (b ∷ back)) ≡ some b
unfolding find_block
find_block_lem [] back b a e t = ground arith
find_block_lem (c ∷ front) back b a e t =
    let (m, l, r) = cut front (b ∷ back) (a + header_size + c.size) e t.1 in
    ground (
      arith,
      Tiles-le (a + header_size + c.size) m front l,
      r.0,
      t.0,
      find_block_lem front back b (a + header_size + c.size) e t.1,
    )

-- Freeing the block at `b` of a valid pool.
module _ (p : MemPool) (front back : List Block) (b : Block) (v : IsValid p)
    (there : p.blocks ≡ front ++ (b ∷ back)) where
  abbrev pub freed_blocks : List Block
  freed_blocks = front ++ (record b { is_free = true } ∷ back)

  found_block : find_block (b.addr + header_size) p.blocks ≡ some b
  found_block = rw there (find_block_lem front back b 0 p.total_size (rw there at v.tiles))

  pub free_lem : memory_pool_free p (some (b.addr + header_size)) ≡ some (release p b)
  unfolding memory_pool_free
  free_lem = ap (Option.map (release p)) found_block

  pub release_blocks : (release p b).blocks ≡ coalesce freed_blocks
  unfolding release
  release_blocks =
      rw there
        (ap coalesce (replace_at_lem front back b freed 0 p.total_size (rw there at v.tiles)))

  freed-Tiles : Tiles 0 freed_blocks p.total_size
  freed-Tiles =
      let (m, l, r) = cut front (b ∷ back) 0 p.total_size (rw there at v.tiles) in
      join front (record b { is_free = true } ∷ back) 0 m p.total_size l r

  module _ (held : b.is_free ≡ false) where
    taken_freed : taken freed_blocks + (b.size + header_size) ≡ taken p.blocks
    taken_freed = rw there (
        omega (
          arith,
          taken-append front (b ∷ back),
          taken-append front (record b { is_free = true } ∷ back),
          here,
        ))
      where
        here : taken (b ∷ back) ≡ b.size + header_size + taken back
        here = ground (arith, held)

    release-IsValid : IsValid (release p b)
    release-IsValid = record {
      tiles = rw release_blocks (
          unfold release in
          coalesce-Tiles freed_blocks 0 p.total_size (omega (arith, v.small)) freed-Tiles);
      small = unfold release in v.small;
      used =
          rw (release_blocks, taken-coalesce freed_blocks)
            (unfold release in omega (arith, taken_freed, v.used, v.peak, v.bounded, v.small));
      peak = unfold release in omega (arith, taken_freed, v.used, v.peak, v.bounded, v.small);
      bounded = unfold release in v.bounded;
    }

    live-release : live (release p b).blocks ≡ live front ++ live back
    live-release = rw (
      release_blocks,
      live-coalesce freed_blocks,
      live-append front (record b { is_free = true } ∷ back),
    )

-- A pointer that is out of a valid pool can be freed: afterwards the pool is valid, all other pointers are out as
-- before, and no two neighbours are free.
pub free_live :
    (p : MemPool) (front back : List (ℕ × ℕ)) (ptr g : ℕ)
    → IsValid p
    → live p.blocks ≡ front ++ ((ptr, g) ∷ back)
    → (q : MemPool) × (memory_pool_free p (some ptr) ≡ some q)
      × IsValid q
      × (live q.blocks ≡ front ++ back)
      × IsMerged q.blocks
free_live p front back ptr g v e =
    let o = owner p.blocks front back ptr g e in
    (
      release p o.block,
      rw (← o.named) (free_lem p o.front o.back o.block v o.there),
      release-IsValid p o.front o.back o.block v o.there o.held,
      rw (← o.live_front, ← o.live_back) (live-release p o.front o.back o.block v o.there o.held),
      rw (release_blocks p o.front o.back o.block v o.there)
          (coalesce-IsMerged (freed_blocks p o.front o.back o.block v o.there)),
    )

-- A free of a pointer to a block of a valid pool that is free already, and whose header still stands,
-- breaks the accounting: the blocks in use take what they took, and `used_size` is no longer what the blocks in use take.
pub free_twice_breaks :
    (p : MemPool) (front back : List Block) (b : Block)
    → IsValid p
    → p.blocks ≡ front ++ (b ∷ back)
    → b.is_free ≡ true
    → (q : MemPool) × (memory_pool_free p (some (b.addr + header_size)) ≡ some q)
      × (taken q.blocks ≡ taken p.blocks)
      × (q.used_size ≢ taken q.blocks)
free_twice_breaks p front back b v there free = (
  release p b,
  free_lem p front back b v there,
  same,
  rw same (unfold release in omega (arith, v.used, v.peak, v.bounded, v.small, wide)),
)
  where
    bare : taken (b ∷ back) ≡ taken back
    bare = ground (arith, free)

    same : taken (release p b).blocks ≡ taken p.blocks
    same =
        rw
          (
            release_blocks p front back b v there,
            taken-coalesce (freed_blocks p front back b v there),
          )
          (rw there (
            omega (
              arith,
              taken-append front (b ∷ back),
              taken-append front (record b { is_free = true } ∷ back),
              bare,
            )))

    wide : b.size + header_size ≤ p.total_size
    wide =
        let (m, l, r) = cut front (b ∷ back) 0 p.total_size (rw there at v.tiles) in
        omega (arith, Tiles-le (m + header_size + b.size) p.total_size back r.1)
