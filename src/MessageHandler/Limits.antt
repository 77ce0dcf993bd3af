-- ===== src/MessageHandler/Limits.antt =====
-- The limit on the retries of the pending messages: it is the configured number, in every step.
use cursor_embed_cus_mqtt_su.Base.{
  ℕ, ◌+◌, ◌%◌, ◌^◌, ◌≡◌, refl, subst, inl, inr, Bool, true, false, not, ◌||◌, List, [], ◌∷◌, Option,
  none, some, length, ltb, leb, ◌==◌, All, Bool-cases, Option-cases,
}
use mathlib.Core.Option
use cursor_embed_cus_mqtt_su.MemPool.{MemPool, memory_pool_alloc, memory_pool_free}
use cursor_embed_cus_mqtt_su.PubSub.{MsgPriority, QueueApi, pubsub_publish}
use cursor_embed_cus_mqtt_su.MessageHandler.{
  Config, Pending, Handler, pending_size, count_retry, retry_timer_callback, fill_pending,
  alloc_data, alloc_node, create_pending_message, publish_now, publish_pending, publish_as,
  message_publish_with_qos,
}

-- The retries of a message are bounded by `limit`.
abbrev pub IsLimited : ℕ → Pending → Type 0
IsLimited limit m = m.max_retries ≡ limit

-- A handler that is configured with `limit`, and all its messages with it.
pub record IsConfigured {Q : Type 0} (limit : ℕ) (h : Handler Q) : Type 0 where
  pub same : h.config.retry_count ≡ limit
  pub each : All (IsLimited limit) h.pending_messages

-- Of a creation: the message, where there is one.
abbrev Makes : ℕ → Option (Option Pending × MemPool) → Type 0
Makes limit none = Unit
Makes limit (some (none, pool)) = Unit
Makes limit (some (some m, pool)) = IsLimited limit m

-- Of a step: the handler, where it returns.
abbrev pub Keeps : {Q : Type 0} {A : Type 0} → ℕ → Option (A × Handler Q) → Type 0
Keeps limit none = Unit
Keeps limit (some (a, r)) = IsConfigured limit r

module _ (config : Config) (name bytes : List ℕ) (data_len : ℕ) (priority : MsgPriority) (qos : ℕ)
    (timer : Bool) where
  freed-Makes :
      (pool : MemPool) (ptr : ℕ)
      → Makes config.retry_count (Option.map (λ p. (none, p)) (memory_pool_free pool (some ptr)))
  freed-Makes pool ptr = elim (Option-cases (memory_pool_free pool (some ptr))) [
    | inl e ↦ rw e tt
    | inr (less, e) ↦ rw e tt
  ]

  fill-Makes :
      (node ptr : ℕ) (timer : Bool) (pool : MemPool)
      → Makes config.retry_count
          (fill_pending config node ptr name bytes data_len priority qos timer pool)
  unfolding fill_pending
  fill-Makes node ptr true pool = elim (Bool-cases (ltb (length bytes) data_len)) [
    | inl e ↦ rw e tt
    | inr e ↦ rw e refl
  ]
  fill-Makes node ptr false pool = elim (Bool-cases (ltb (length bytes) data_len)) [
    | inl e ↦ rw e tt
    | inr e ↦ rw e (elim (Option-cases (memory_pool_free pool (some ptr))) [
      | inl f ↦ rw f tt
      | inr (less, f) ↦ rw f (freed-Makes less node)
    ])
  ]

  data-Makes :
      (node : ℕ) (got : Option ℕ × MemPool)
      → Makes config.retry_count (alloc_data config node name bytes data_len priority qos timer got)
  unfolding alloc_data
  data-Makes node (none, pool) = freed-Makes pool node
  data-Makes node (some ptr, pool) = fill-Makes node ptr timer pool

  node-Makes :
      (got : Option ℕ × MemPool)
      → Makes config.retry_count (alloc_node config name bytes data_len priority qos timer got)
  unfolding alloc_node
  node-Makes (none, pool) = tt
  node-Makes (some node, pool) = data-Makes node (memory_pool_alloc pool data_len)

  create-Makes :
      (pool : MemPool)
      → Makes config.retry_count
          (create_pending_message config pool name bytes data_len priority qos timer)
  unfolding create_pending_message
  create-Makes pool = node-Makes (memory_pool_alloc pool pending_size)

count_retry-IsLimited :
    (limit node : ℕ) (ms : List Pending)
    → All (IsLimited limit) ms
    → All (IsLimited limit) (count_retry node ms)
unfolding count_retry
count_retry-IsLimited limit node [] a = a
count_retry-IsLimited limit node (x ∷ ms) (p, a) = elim (Bool-cases (x.node == node)) [
  | inl e ↦ rw e (p, a)
  | inr e ↦ rw e (p, count_retry-IsLimited limit node ms a)
]

module _ {Q : Type 0} (api : QueueApi Q) (limit : ℕ) where
  publish_now-Keeps :
      (now : ℕ) (name bytes : List ℕ) (data_len : ℕ) (priority : MsgPriority) (id : ℕ)
      (h : Handler Q)
      → IsConfigured limit h
      → Keeps limit (publish_now api now name bytes data_len priority id h)
  unfolding publish_now
  publish_now-Keeps now name bytes data_len priority id h i =
      elim (Option-cases
        (pubsub_publish api h.core now (some name) (some bytes) data_len priority)) [
          | inl e ↦ rw e tt
          | inr ((err, s), e) ↦ rw e (record { same = i.same; each = i.each })
        ]

  pending-Keeps :
      (now : ℕ) (name bytes : List ℕ) (data_len : ℕ) (priority : MsgPriority) (id : ℕ)
      (h : Handler Q) (made : Option (Option Pending × MemPool))
      → IsConfigured limit h
      → Makes limit made
      → Keeps limit (publish_pending api now name bytes data_len priority id h made)
  unfolding publish_pending
  pending-Keeps now name bytes data_len priority id h none i m = tt
  pending-Keeps now name bytes data_len priority id h (some (none, pool)) i m = record {
    same = i.same;
    each = i.each;
  }
  pending-Keeps now name bytes data_len priority id h (some (some m, pool)) i e =
      publish_now-Keeps now name bytes data_len priority id _
        (record { same = i.same; each = (e, i.each) })

  pub publish-Keeps :
      (now : ℕ) (name bytes : Option (List ℕ)) (data_len : ℕ) (priority : MsgPriority) (qos : ℕ)
      (wanted timer : Bool) (h : Handler Q)
      → IsConfigured limit h
      → Keeps limit
          (message_publish_with_qos api now name bytes data_len priority qos wanted timer h)
  unfolding message_publish_with_qos publish_as
  publish-Keeps now none bytes data_len priority qos wanted timer h i = i
  publish-Keeps now (some name) none data_len priority qos wanted timer h i = i
  publish-Keeps now (some name) (some bytes) data_len priority qos wanted timer h i =
      elim (Bool-cases (data_len == 0 || not wanted)) [
        | inl e ↦ rw e i
        | inr e ↦ rw e (elim (Bool-cases (ltb 0 qos)) [
          | inl f ↦ rw f (
              pending-Keeps now name bytes data_len priority h.next_msg_id
                (record h { next_msg_id = (h.next_msg_id + 1) % 2 ^ 32 })
                (create_pending_message h.config h.core.pool name bytes data_len priority qos timer)
                (record { same = i.same; each = i.each })
                (subst
                  (λ n. Makes n (
                    create_pending_message h.config h.core.pool name bytes data_len priority qos
                      timer))
                  i.same
                  (create-Makes h.config name bytes data_len priority qos timer h.core.pool)))
          | inr f ↦ rw f (
              publish_now-Keeps now name bytes data_len priority h.next_msg_id _
                (record { same = i.same; each = i.each }))
        ])
      ]

  pub tick-Keeps :
      (now : ℕ) (m : Pending) (h : Handler Q)
      → IsConfigured limit h
      → Keeps limit (retry_timer_callback api now m h)
  unfolding retry_timer_callback
  tick-Keeps now m h i = elim (Bool-cases (leb m.max_retries m.retry_count)) [
    | inl e ↦ rw e i
    | inr e ↦
        rw e
          (elim (Option-cases (
            pubsub_publish api h.core now (some m.topic) (some m.msg_data.1) m.data_len
              m.priority)) [
                | inl f ↦ rw f tt
                | inr ((err, s), f) ↦ rw f (record {
                  same = i.same;
                  each = count_retry-IsLimited limit m.node h.pending_messages i.each;
                })
              ])
  ]
