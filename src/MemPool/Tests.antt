-- ===== src/MemPool/Tests.antt =====
-- The theorems on the memory pool at concrete pools, and runs.
use cursor_embed_cus_mqtt_su.Base.{
  ℕ, ◌+◌, ◌≤◌, ◌≡◌, refl, arith, true, false, some, List, [], ◌∷◌, ◌++◌, All,
}
use cursor_embed_cus_mqtt_su.MemPool.{
  Block, MemPool, pool_size, first_block, header_size, align8, memory_pool_init, memory_pool_alloc,
  memory_pool_free, find_best, replace_at, carve, granted,
}
use cursor_embed_cus_mqtt_su.MemPool.Fit.{Fits}
use cursor_embed_cus_mqtt_su.MemPool.Tiling.{live}
use cursor_embed_cus_mqtt_su.MemPool.Merge.{IsMerged}
use cursor_embed_cus_mqtt_su.MemPool.Alloc.{
  IsValid, memory_pool_init-IsValid, alloc-IsValid, alloc_live, alloc_best_fit,
}
use cursor_embed_cus_mqtt_su.MemPool.Free.{free_live}
use cursor_embed_cus_mqtt_su.MemPool.Undo.{alloc_then_free}

abbrev fresh : MemPool
fresh = record { blocks = first_block ∷ []; total_size = pool_size; used_size = 0; peak_use = 0 }

-- The fresh pool after an alloc of 20 bytes.
abbrev one_out : MemPool
one_out = record {
  blocks =
      record { addr = 0; size = 24; is_free = false }
      ∷ (record { addr = 36; size = 12752; is_free = true } ∷ []);
  total_size = pool_size;
  used_size = 36;
  peak_use = 36;
}

fresh-IsValid : IsValid fresh
unfolding memory_pool_init
fresh-IsValid = memory_pool_init-IsValid refl

one_out-IsValid : IsValid one_out
one_out-IsValid = record {
  tiles = omega arith;
  small = omega arith;
  used = refl;
  peak = omega arith;
  bounded = omega arith;
}

alloc_run : memory_pool_alloc fresh 20 ≡ (some 12, one_out)
unfolding memory_pool_alloc align8 find_best replace_at carve granted
alloc_run = refl

alloc-IsValid_example : IsValid (memory_pool_alloc one_out 100).1
alloc-IsValid_example = alloc-IsValid one_out 100 one_out-IsValid

alloc_live_example :
    (front : List (ℕ × ℕ)) × (back : List (ℕ × ℕ)) × (g : ℕ) × (live fresh.blocks ≡ front ++ back)
    × (live one_out.blocks ≡ front ++ ((12, g) ∷ back))
    × (align8 20 ≤ g)
alloc_live_example = alloc_live fresh one_out 20 12 fresh-IsValid alloc_run

alloc_best_fit_example :
    (front : List Block) × (b : Block) × (back : List Block) × (fresh.blocks ≡ front ++ (b ∷ back))
    × (12 ≡ b.addr + header_size)
    × Fits (align8 20) b
    × All (λ c. Fits (align8 20) c → b.size ≤ c.size) fresh.blocks
alloc_best_fit_example = alloc_best_fit fresh one_out 20 12 fresh-IsValid alloc_run

free_live_example :
    (q : MemPool) × (memory_pool_free one_out (some 12) ≡ some q)
    × IsValid q
    × (live q.blocks ≡ [])
    × IsMerged q.blocks
free_live_example = free_live one_out [] [] 12 24 one_out-IsValid refl

alloc_then_free_example :
    (r : MemPool) × (memory_pool_free one_out (some 12) ≡ some r)
    × (r.blocks ≡ fresh.blocks)
    × (r.used_size ≡ fresh.used_size)
alloc_then_free_example = alloc_then_free fresh one_out 20 12 fresh-IsValid (refl, tt) alloc_run
