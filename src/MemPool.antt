-- ===== src/MemPool.antt =====
-- main/memory_pool.c, with main/include/memory_pool.h. A block header is a record with its offset in
-- the pool, and `first_block` with the `next` pointers is the list of blocks. A pointer is the
-- offset of the bytes behind a header. `size_t` has 32 bits, and a header takes 12 bytes: a pointer,
-- a size and a flag with its padding. Each call holds the mutex from start to end.
pub mod Fit
pub mod Tiling
pub mod Merge
pub mod Alloc
pub mod Free
pub mod Undo
pub mod Owned
mod Tests
use cursor_embed_cus_mqtt_su.Base.{
  ℕ, ◌+◌, ◌-◌, ◌*◌, ◌/◌, ◌%◌, ◌^◌, Bool, true, false, not, ◌&&◌, List, [], ◌∷◌, ◌++◌, Option, none,
  some, ltb, leb, ◌==◌, if◌then◌else◌,
}
use mathlib.Core.Option

pub record Block : Type 0 where
  pub addr : ℕ
  pub size : ℕ
  pub is_free : Bool

pub record MemPool : Type 0 where
  pub blocks : List Block
  pub total_size : ℕ
  pub used_size : ℕ
  pub peak_use : ℕ

abbrev pub size_mod : ℕ
size_mod = 2 ^ 32

-- sizeof(block_header_t).
abbrev pub header_size : ℕ
header_size = 12

-- MEMORY_POOL_BLOCKS * MEMORY_BLOCK_SIZE.
abbrev pub pool_size : ℕ
pool_size = 100 * 128

abbrev pub first_block : Block
first_block = record { addr = 0; size = pool_size - header_size; is_free = true }

-- The arguments say whether the heap gives the space and the mutex; `none` is ESP_ERR_NO_MEM.
unfoldable pub memory_pool_init : Bool → Bool → Option MemPool
memory_pool_init heap mutex =
    if heap && mutex
    then some
        (record { blocks = first_block ∷ []; total_size = pool_size; used_size = 0; peak_use = 0 })
    else none

-- (size + 7) & ~7, in size_t.
unfoldable pub align8 : ℕ → ℕ
align8 size = (size + 7) % size_mod / 8 * 8

-- The search loop, with `best_fit` and `min_size_diff`.
unfoldable pub find_best : ℕ → List Block → Option ℕ → ℕ → Option ℕ × ℕ
find_best size [] best min = (best, min)
find_best size (b ∷ bs) best min =
    let diff = b.size - size in
    let better = b.is_free && (leb size b.size && ltb diff min) in
    let rest =
      find_best size bs (if better then some b.addr else best) (if better then diff else min) in
    if better && diff == 0 then (some b.addr, diff) else rest

-- The block that a pointer to its header names, replaced.
unfoldable pub replace_at : ℕ → (Block → List Block) → List Block → List Block
replace_at a f [] = []
replace_at a f (b ∷ bs) = if b.addr == a then f b ++ bs else b ∷ replace_at a f bs

-- The chosen block is taken, and the rest of it becomes a block if it has room for one.
unfoldable pub carve : ℕ → ℕ → Block → List Block
carve size diff b =
    if leb (header_size + 8) diff
    then record b { size = size; is_free = false }
      ∷ (record { addr = b.addr + header_size + size; size = diff - header_size; is_free = true }
          ∷ [])
    else record b { is_free = false } ∷ []

-- The size of the chosen block afterwards.
unfoldable pub granted : ℕ → ℕ → ℕ
granted size diff = if leb (header_size + 8) diff then size else size + diff

pub take_block : MemPool → ℕ → ℕ → ℕ → MemPool
take_block p size diff a =
    let used = (p.used_size + (granted size diff + header_size)) % size_mod in
    record p {
      blocks = replace_at a (carve size diff) p.blocks;
      used_size = used;
      peak_use = if ltb p.peak_use used then used else p.peak_use;
    }

-- What follows the search: a NULL pointer, or the block at `a`.
pub take_best : MemPool → ℕ → Option ℕ × ℕ → Option ℕ × MemPool
take_best p size (none, diff) = (none, p)
take_best p size (some a, diff) = (some (a + header_size), take_block p size diff a)

-- The pointer, `none` for NULL, and the pool afterwards.
unfoldable pub memory_pool_alloc : MemPool → ℕ → Option ℕ × MemPool
unfolding take_best take_block
memory_pool_alloc p size =
    if size == 0
    then (none, p)
    else take_best p (align8 size) (find_best (align8 size) p.blocks none (size_mod - 1))

-- The block whose bytes a pointer names.
pub find_block : ℕ → List Block → Option Block
find_block ptr [] = none
find_block ptr (b ∷ bs) = if b.addr + header_size == ptr then some b else find_block ptr bs

abbrev pub freed : Block → List Block
freed b = record b { is_free = true } ∷ []

-- The merging loop, at `current` and the blocks behind it.
pub merge_from : Block → List Block → List Block
merge_from b [] = b ∷ []
merge_from b (c ∷ cs) =
    let merged = merge_from (record b { size = (b.size + (c.size + header_size)) % size_mod }) cs in
    let moved = b ∷ merge_from c cs in if b.is_free && c.is_free then merged else moved

pub coalesce : List Block → List Block
unfolding merge_from
coalesce [] = []
coalesce (b ∷ bs) = merge_from b bs

-- The block's bytes are given back, and free neighbours are merged.
pub release : MemPool → Block → MemPool
release p b = record p {
  blocks = coalesce (replace_at b.addr freed p.blocks);
  used_size = (p.used_size + size_mod - (b.size + header_size)) % size_mod;
}

-- `none` where the pointer is that of no block: the source then writes into other memory.
unfoldable pub memory_pool_free : MemPool → Option ℕ → Option MemPool
unfolding release
memory_pool_free p none = some p
memory_pool_free p (some ptr) = Option.map (release p) (find_block ptr p.blocks)

-- (total, used, peak).
pub memory_pool_stats : MemPool → ℕ × ℕ × ℕ
memory_pool_stats p = (p.total_size, p.used_size, p.peak_use)
