-- ===== src/MemPool/Tiling.antt =====
-- The blocks tile the pool, and the pointers that are out.
use cursor_embed_cus_mqtt_su.Base.{
  ℕ, ◌+◌, ◌-◌, ◌≤◌, ◌≡◌, refl, arith, List, [], ◌∷◌, ◌++◌, if◌then◌else◌,
}
use cursor_embed_cus_mqtt_su.MemPool.{Block, header_size, replace_at, carve, granted}

-- From offset `a` the blocks follow one another without a gap up to offset `e`.
abbrev pub Tiles : ℕ → List Block → ℕ → Type 0
Tiles a [] e = a ≡ e
Tiles a (b ∷ bs) e = (b.addr ≡ a) × Tiles (a + header_size + b.size) bs e

-- The pointers that are out, with the sizes of their blocks, from low to high.
abbrev pub live : List Block → List (ℕ × ℕ)
live [] = []
live (b ∷ bs) = if b.is_free then live bs else (b.addr + header_size, b.size) ∷ live bs

-- What the blocks in `live` take, headers included.
abbrev pub taken : List Block → ℕ
taken [] = 0
taken (b ∷ bs) = if b.is_free then taken bs else b.size + header_size + taken bs

pub Tiles-le : (a e : ℕ) (bs : List Block) → Tiles a bs e → a + taken bs ≤ e
Tiles-le a e [] t = omega arith
Tiles-le a e (b ∷ bs) t = ground (arith, Tiles-le (a + header_size + b.size) e bs t.1)

-- Where a tiling can be cut.
pub cut :
    (front rest : List Block) (a e : ℕ)
    → Tiles a (front ++ rest) e
    → (m : ℕ) × Tiles a front m × Tiles m rest e
cut [] rest a e t = (a, refl, t)
cut (b ∷ front) rest a e t =
    let (m, l, r) = cut front rest (a + header_size + b.size) e t.1 in (m, (t.0, l), r)

pub join :
    (front rest : List Block) (a m e : ℕ)
    → Tiles a front m
    → Tiles m rest e
    → Tiles a (front ++ rest) e
join [] rest a m e l r = rw l r
join (b ∷ front) rest a m e l r = (l.0, join front rest (a + header_size + b.size) m e l.1 r)

-- The block named by its address is the only one there.
pub replace_at_lem :
    (front back : List Block) (b : Block) (f : Block → List Block) (a e : ℕ)
    → Tiles a (front ++ (b ∷ back)) e
    → replace_at b.addr f (front ++ (b ∷ back)) ≡ front ++ (f b ++ back)
unfolding replace_at
replace_at_lem [] back b f a e t = ground arith
replace_at_lem (c ∷ front) back b f a e t =
    let (m, l, r) = cut front (b ∷ back) (a + header_size + c.size) e t.1 in
    ground (
      arith,
      Tiles-le (a + header_size + c.size) m front l,
      r.0,
      t.0,
      replace_at_lem front back b f (a + header_size + c.size) e t.1,
    )

pub live-append : (xs ys : List Block) → live (xs ++ ys) ≡ live xs ++ live ys
live-append [] ys = refl
live-append (b ∷ xs) ys = ground (arith, live-append xs ys)

pub taken-append : (xs ys : List Block) → taken (xs ++ ys) ≡ taken xs + taken ys
taken-append [] ys = omega arith
taken-append (b ∷ xs) ys = ground (arith, taken-append xs ys)

-- The carved parts tile what the block covered, and the first of them is out.
pub carve-Tiles :
    (size : ℕ) (b : Block) (a e : ℕ)
    → size ≤ b.size
    → Tiles a (b ∷ []) e
    → Tiles a (carve size (b.size - size) b) e
unfolding carve
carve-Tiles size b a e h t = ground arith

pub live-carve :
    (size : ℕ) (b : Block)
    → size ≤ b.size
    → live (carve size (b.size - size) b)
      ≡ (b.addr + header_size, granted size (b.size - size)) ∷ []
unfolding carve granted
live-carve size b h = ground arith

pub taken-carve :
    (size : ℕ) (b : Block)
    → size ≤ b.size
    → taken (carve size (b.size - size) b) ≡ granted size (b.size - size) + header_size
unfolding carve granted
taken-carve size b h = ground arith

-- What all blocks take, headers included.
abbrev pub span : List Block → ℕ
span [] = 0
span (b ∷ bs) = b.size + header_size + span bs

pub Tiles-span : (a e : ℕ) (bs : List Block) → Tiles a bs e → a + span bs ≡ e
Tiles-span a e [] t = omega arith
Tiles-span a e (b ∷ bs) t = omega (arith, Tiles-span (a + header_size + b.size) e bs t.1)
