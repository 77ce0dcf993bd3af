-- ===== src/MemPool/Merge.antt =====
-- The merging of free neighbours in `memory_pool_free`.
use cursor_embed_cus_mqtt_su.Base.{
  ℕ, ◌+◌, ◌%◌, ◌<◌, ◌≡◌, refl, ap, arith, Bool, false, ◌&&◌, List, [], ◌∷◌, inl, inr, Bool-cases,
}
use cursor_embed_cus_mqtt_su.MemPool.{Block, header_size, size_mod, coalesce, merge_from}
use cursor_embed_cus_mqtt_su.MemPool.Tiling.{Tiles, Tiles-le, live, taken}

-- Merging keeps the tiling, the pointers that are out and what they take.
wide :
    (b c : Block) (cs : List Block) (a e : ℕ)
    → e < size_mod
    → Tiles a (b ∷ (c ∷ cs)) e
    → a + header_size + (b.size + (c.size + header_size)) % size_mod
      ≡ a + header_size + b.size + header_size + c.size
wide b c cs a e h t =
    omega (arith, Tiles-le (a + header_size + b.size + header_size + c.size) e cs t.1.1)

merge_from-Tiles :
    (b : Block) (bs : List Block) (a e : ℕ)
    → e < size_mod
    → Tiles a (b ∷ bs) e
    → Tiles a (merge_from b bs) e
unfolding merge_from
merge_from-Tiles b [] a e h t = t
merge_from-Tiles b (c ∷ cs) a e h t = elim (Bool-cases (b.is_free && c.is_free)) [
  | inl both ↦ rw both (merge_from-Tiles _ cs a e h (t.0, rw (wide b c cs a e h t) t.1.1))
  | inr apart ↦ rw apart (t.0, merge_from-Tiles c cs _ e h t.1)
]

merge_from-live : (b : Block) (bs : List Block) → live (merge_from b bs) ≡ live (b ∷ bs)
unfolding merge_from
merge_from-live b [] = refl
merge_from-live b (c ∷ cs) = ground (
  arith,
  merge_from-live (record b { size = (b.size + (c.size + header_size)) % size_mod }) cs,
  merge_from-live c cs,
)

merge_from-taken : (b : Block) (bs : List Block) → taken (merge_from b bs) ≡ taken (b ∷ bs)
unfolding merge_from
merge_from-taken b [] = refl
merge_from-taken b (c ∷ cs) = ground (
  arith,
  merge_from-taken (record b { size = (b.size + (c.size + header_size)) % size_mod }) cs,
  merge_from-taken c cs,
)

-- No two neighbours are free; `prev` is the flag of the block in front.
abbrev pub IsMergedAfter : Bool → List Block → Type 0
IsMergedAfter prev [] = Unit
IsMergedAfter prev (b ∷ bs) = ((prev && b.is_free) ≡ false) × IsMergedAfter b.is_free bs

abbrev pub IsMerged : List Block → Type 0
IsMerged = IsMergedAfter false

merge_from-IsMerged :
    (b : Block) (bs : List Block) (prev : Bool)
    → (prev && b.is_free) ≡ false
    → IsMergedAfter prev (merge_from b bs)
unfolding merge_from
merge_from-IsMerged b [] prev h = (h, tt)
merge_from-IsMerged b (c ∷ cs) prev h = elim (Bool-cases (b.is_free && c.is_free)) [
  | inl both ↦ rw both (merge_from-IsMerged _ cs prev h)
  | inr apart ↦ rw apart (h, merge_from-IsMerged c cs b.is_free apart)
]

pub coalesce-Tiles :
    (bs : List Block) (a e : ℕ) → e < size_mod → Tiles a bs e → Tiles a (coalesce bs) e
unfolding coalesce
coalesce-Tiles [] a e h t = t
coalesce-Tiles (b ∷ bs) a e h t = merge_from-Tiles b bs a e h t

pub live-coalesce : (bs : List Block) → live (coalesce bs) ≡ live bs
unfolding coalesce
live-coalesce [] = refl
live-coalesce (b ∷ bs) = merge_from-live b bs

pub taken-coalesce : (bs : List Block) → taken (coalesce bs) ≡ taken bs
unfolding coalesce
taken-coalesce [] = refl
taken-coalesce (b ∷ bs) = merge_from-taken b bs

pub coalesce-IsMerged : (bs : List Block) → IsMerged (coalesce bs)
unfolding coalesce
coalesce-IsMerged [] = tt
coalesce-IsMerged (b ∷ bs) = merge_from-IsMerged b bs false refl

-- A list with no two free neighbours is left as it is.
merge_from-eq :
    (b : Block) (bs : List Block) → IsMergedAfter b.is_free bs → merge_from b bs ≡ b ∷ bs
unfolding merge_from
merge_from-eq b [] h = refl
merge_from-eq b (c ∷ cs) h = rw (h.0) (ap (λ l. b ∷ l) (merge_from-eq c cs h.1))

pub coalesce-eq : (bs : List Block) → IsMerged bs → coalesce bs ≡ bs
unfolding coalesce
coalesce-eq [] h = refl
coalesce-eq (b ∷ bs) h = merge_from-eq b bs h.1
