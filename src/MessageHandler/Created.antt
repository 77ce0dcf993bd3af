-- ===== src/MessageHandler/Created.antt =====
-- The list of the pending messages: what a new one takes from the pool, and the count of its retries.
use cursor_embed_cus_mqtt_su.Base.{
  ℕ, ◌^◌, ◌≤◌, ◌<◌, ◌≡◌, refl, arith, inl, inr, Bool, true, false, List, [], ◌∷◌, ◌++◌, Option,
  none, some, length, length-take, ltb-false, ◌==◌, ==_iff, All, Bool-cases,
}
use mathlib.Core.Option
use mathlib.Core.List.{Perm}
use mathlib.Core.List.Perm
use cursor_embed_cus_mqtt_su.MemPool.{MemPool, memory_pool_alloc, memory_pool_free}
use cursor_embed_cus_mqtt_su.MemPool.Alloc.{IsValid}
use cursor_embed_cus_mqtt_su.MemPool.Owned.{out, alloc-out, alloc-none, free-out}
use cursor_embed_cus_mqtt_su.PubSub.{MsgPriority}
use cursor_embed_cus_mqtt_su.MessageHandler.{
  Config, Pending, pending_size, count_retry, find_pending, fill_pending, alloc_data, alloc_node,
  create_pending_message,
}

-- The pointers of the pending messages.
abbrev pub held_by : List Pending → List ℕ
held_by [] = []
held_by (m ∷ ms) = m.node ∷ (m.msg_data.0 ∷ held_by ms)

-- A pending message has its data, and its retries are within their bound.
pub record IsPending (m : Pending) : Type 0 where
  pub enough : m.data_len ≤ length m.msg_data.1
  pub retries : m.retry_count ≤ m.max_retries
  pub bound : m.max_retries < 2 ^ 32

abbrev pub added : Option Pending → List Pending
added none = []
added (some m) = m ∷ []

-- What the creation of a pending message gives: the message, or nothing, with the pool that it leaves.
pub record Creates (rest : List ℕ) (o : Option (Option Pending × MemPool)) : Type 0 where
  pub made : Option Pending
  pub pool : MemPool
  pub creates : o ≡ some (made, pool)
  pub valid : IsValid pool
  pub held : Perm (held_by (added made) ++ rest) (out pool)
  pub good : All IsPending (added made)

module _ (config : Config) (small : config.retry_count < 2 ^ 32) (name bytes : List ℕ)
    (data_len : ℕ) (enough : data_len ≤ length bytes) (priority : MsgPriority) (qos : ℕ) where
  nothing :
      (pool : MemPool) (rest : List ℕ)
      → IsValid pool
      → Perm rest (out pool)
      → Creates rest (some (none, pool))
  nothing pool rest v h = record {
    made = none;
    pool = pool;
    creates = refl;
    valid = v;
    held = h;
    good = tt;
  }

  -- A node that is out goes back.
  give_back :
      (pool : MemPool) (node : ℕ) (rest : List ℕ)
      → IsValid pool
      → Perm (node ∷ rest) (out pool)
      → Creates rest (Option.map (λ p. (none, p)) (memory_pool_free pool (some node)))
  give_back pool node rest v h =
      let (q, e, w, k) = free-out pool node rest v h in rw e (nothing q rest w k)

  fill-Creates :
      (timer : Bool) (pool : MemPool) (node ptr : ℕ) (rest : List ℕ)
      → IsValid pool
      → Perm (node ∷ (ptr ∷ rest)) (out pool)
      → Creates rest (fill_pending config node ptr name bytes data_len priority qos timer pool)
  unfolding fill_pending
  fill-Creates true pool node ptr rest v h = rw (ltb-false (length bytes) data_len enough) (record {
    made = _;
    pool = pool;
    creates = refl;
    valid = v;
    held = h;
    good = (
      record {
        enough = omega (arith, length-take data_len bytes enough);
        retries = omega arith;
        bound = small;
      },
      tt,
    );
  })
  fill-Creates false pool node ptr rest v h =
      let (q, e, w, k) =
        free-out pool ptr (node ∷ rest) v (Perm.trans (Perm.swap node ptr rest) h) in
      rw (ltb-false (length bytes) data_len enough, e) (give_back q node rest w k)

  data-Creates :
      (timer : Bool) (pool : MemPool) (node : ℕ) (rest : List ℕ) (got : Option ℕ × MemPool)
      → memory_pool_alloc pool data_len ≡ got
      → IsValid pool
      → Perm (node ∷ rest) (out pool)
      → Creates rest (alloc_data config node name bytes data_len priority qos timer got)
  unfolding alloc_data
  data-Creates timer pool node rest (none, after) e v h =
      let same : after ≡ pool = alloc-none pool after data_len v e in
      give_back after node rest (rw same v) (rw same h)
  data-Creates timer pool node rest (some ptr, after) e v h =
      let (w, took) = alloc-out pool after data_len ptr v e in
      fill-Creates timer after node ptr rest w
        (Perm.trans (Perm.swap ptr node rest) (Perm.trans (Perm.cons ptr h) took))

  node-Creates :
      (timer : Bool) (pool : MemPool) (rest : List ℕ) (got : Option ℕ × MemPool)
      → memory_pool_alloc pool pending_size ≡ got
      → IsValid pool
      → Perm rest (out pool)
      → Creates rest (alloc_node config name bytes data_len priority qos timer got)
  unfolding alloc_node
  node-Creates timer pool rest (none, after) e v h =
      let same : after ≡ pool = alloc-none pool after pending_size v e in
      nothing after rest (rw same v) (rw same h)
  node-Creates timer pool rest (some node, after) e v h =
      let (w, took) = alloc-out pool after pending_size node v e in
      data-Creates timer after node rest (memory_pool_alloc after data_len) refl w
        (Perm.trans (Perm.cons node h) took)

  pub create-Creates :
      (timer : Bool) (pool : MemPool) (rest : List ℕ)
      → IsValid pool
      → Perm rest (out pool)
      → Creates rest (create_pending_message config pool name bytes data_len priority qos timer)
  unfolding create_pending_message
  create-Creates timer pool rest v h =
      node-Creates timer pool rest (memory_pool_alloc pool pending_size) refl v h

pub found_same : (x m : Pending) → some x ≡ some m → x ≡ m
found_same x m e = cc

pub found-IsPending :
    (node : ℕ) (ms : List Pending) (m : Pending)
    → find_pending node ms ≡ some m
    → All IsPending ms
    → IsPending m
unfolding find_pending
found-IsPending node [] m f a = absurd (ground (arith, f))
found-IsPending node (x ∷ ms) m f (p, a) = elim (Bool-cases (x.node == node)) [
  | inl e ↦ rw (found_same x m (rw (e, find_pending) at f)) at p
  | inr e ↦ found-IsPending node ms m (rw (e, find_pending) at f) a
]

pub count_retry-IsPending :
    (node : ℕ) (ms : List Pending) (m : Pending)
    → find_pending node ms ≡ some m
    → m.retry_count < m.max_retries
    → All IsPending ms
    → All IsPending (count_retry node ms)
unfolding count_retry find_pending
count_retry-IsPending node [] m f l a = a
count_retry-IsPending node (x ∷ ms) m f l (p, a) = elim (Bool-cases (x.node == node)) [
  | inl e ↦
      let same : x ≡ m = found_same x m (rw (e, find_pending) at f) in
      let room : x.retry_count < x.max_retries = rw same l in
      rw e (record { enough = p.enough; retries = omega (arith, p.bound); bound = p.bound }, a)
  | inr e ↦ rw e (p, count_retry-IsPending node ms m (rw (e, find_pending) at f) l a)
]

pub count_retry-held_by :
    (node : ℕ) (ms : List Pending) → held_by (count_retry node ms) ≡ held_by ms
unfolding count_retry
count_retry-held_by node [] = refl
count_retry-held_by node (x ∷ ms) = elim (Bool-cases (x.node == node)) [
  | inl e ↦ rw e refl
  | inr e ↦ rw (e, count_retry-held_by node ms) refl
]

pub found_node :
    (node : ℕ) (ms : List Pending) (m : Pending) → find_pending node ms ≡ some m → m.node ≡ node
unfolding find_pending
found_node node [] m f = absurd (ground (arith, f))
found_node node (x ∷ ms) m f = elim (Bool-cases (x.node == node)) [
  | inl e ↦ rw (found_same x m (rw (e, find_pending) at f)) at ((==_iff x.node node).0 e)
  | inr e ↦ found_node node ms m (rw (e, find_pending) at f)
]
