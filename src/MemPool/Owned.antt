-- ===== src/MemPool/Owned.antt =====
-- The pointers that are out of the pool as a multiset: an alloc adds one, a free takes one away.
use cursor_embed_cus_mqtt_su.Base.{
  ℕ, zero, suc, ◌≡◌, refl, sym, ap, arith, inl, inr, ◌⊎◌, true, List, [], ◌∷◌, ◌++◌, none, some,
  map, ◌==◌, ==_iff, Bool-cases,
}
use mathlib.Core.List.{Mem, map-append, mem-cons, not-mem-nil, perm_middle, Perm}
use mathlib.Core.List.Perm
use mathlib.Core.Logic.Or
use cursor_embed_cus_mqtt_su.MemPool.{
  MemPool, memory_pool_init, memory_pool_alloc, memory_pool_free,
}
use cursor_embed_cus_mqtt_su.MemPool.Tiling.{live}
use cursor_embed_cus_mqtt_su.MemPool.Alloc.{
  IsValid, alloc-IsValid, alloc_live, alloc_null, alloc_zero,
}
use cursor_embed_cus_mqtt_su.MemPool.Free.{free_live}

abbrev pub pointer : ℕ × ℕ → ℕ
pointer x = x.0

-- The pointers that are out.
abbrev pub out : MemPool → List ℕ
out p = map pointer (live p.blocks)

pub alloc-out :
    (p q : MemPool) (size ptr : ℕ)
    → IsValid p
    → memory_pool_alloc p size ≡ (some ptr, q)
    → IsValid q × Perm (ptr ∷ out p) (out q)
alloc-out p q size ptr v e =
    let (front, back, g, before, after, _) = alloc_live p q size ptr v e in
    (
      rw e at (alloc-IsValid p size v),
      rw (before, after, map-append pointer front back, map-append pointer front ((ptr, g) ∷ back))
          (Perm.symm (perm_middle (map pointer front) (map pointer back))),
    )

pub alloc-none :
    (p q : MemPool) (size : ℕ) → IsValid p → memory_pool_alloc p size ≡ (none, q) → q ≡ p
alloc-none p q zero v e = cc (alloc_zero p)
alloc-none p q (suc n) v e = (alloc_null p q (suc n) v (omega arith) e).0

-- A pointer in the list, with what is around it.
record Around (ptr : ℕ) (xs : List (ℕ × ℕ)) : Type 0 where
  front : List (ℕ × ℕ)
  size : ℕ
  back : List (ℕ × ℕ)
  there : xs ≡ front ++ ((ptr, size) ∷ back)

Around-cons : (ptr : ℕ) (x : ℕ × ℕ) (xs : List (ℕ × ℕ)) → Around ptr xs → Around ptr (x ∷ xs)
Around-cons ptr x xs a = record {
  front = x ∷ a.front;
  size = a.size;
  back = a.back;
  there = ap (λ l. x ∷ l) a.there;
}

search_out : (ptr : ℕ) (xs : List (ℕ × ℕ)) → Around ptr xs ⊎ (¬ Mem ptr (map pointer xs))
search_out ptr [] = inr not-mem-nil
search_out ptr ((a, n) ∷ xs) = elim (Bool-cases (a == ptr)) [
  | inl e ↦ inl (record {
    front = [];
    size = n;
    back = xs;
    there = ap (λ k. (k, n) ∷ xs) ((==_iff a ptr).0 e);
  })
  | inr e ↦ elim (search_out ptr xs) [
    | inl f ↦ inl (Around-cons ptr (a, n) xs f)
    | inr f ↦
        inr (λ m.
          Or.elim (λ x y. elim x [ ]) (mem-cons.0 m) (λ h. cc (e, (==_iff a ptr).1 (sym h))) f)
  ]
]

-- A pointer that is out can be freed, and is not out afterwards.
pub free-out :
    (p : MemPool) (ptr : ℕ) (rest : List ℕ)
    → IsValid p
    → Perm (ptr ∷ rest) (out p)
    → (q : MemPool) × (memory_pool_free p (some ptr) ≡ some q) × IsValid q × Perm rest (out q)
free-out p ptr rest v owns = elim (search_out ptr (live p.blocks)) [
  | inr missing ↦ absurd (missing (Perm.subset owns ptr (mem-cons.1 (Or.inl refl))))
  | inl a ↦
      let (q, e, w, after, _) = free_live p a.front a.back ptr a.size v a.there in
      (
        q,
        e,
        w,
        rw (after, map-append pointer a.front a.back)
            (Perm.cons_inv (
              Perm.trans (rw (a.there, map-append pointer a.front ((ptr, a.size) ∷ a.back)) at owns)
                (perm_middle (map pointer a.front) (map pointer a.back)))),
      )
]

pub init-out : {p : MemPool} → memory_pool_init true true ≡ some p → out p ≡ []
unfolding memory_pool_init
init-out e = ground arith
