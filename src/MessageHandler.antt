-- ===== src/MessageHandler.antt =====
-- main/message_handler.c: messages with a quality of service, and the timers that publish them again.
-- A pending message lies in the pool, in two blocks: the node and the data. The name of the timer is
-- not modelled, and a call and a tick of a timer are one step each.
pub mod Created
pub mod Run
pub mod Retries
pub mod Ids
pub mod Limits
mod Tests
use cursor_embed_cus_mqtt_su.Base.{
  ℕ, ◌+◌, ◌-◌, ◌%◌, ◌^◌, Bool, true, false, not, ◌||◌, List, [], ◌∷◌, Option, none, some, length,
  take, ltb, leb, ◌==◌, if◌then◌else◌,
}
use cursor_embed_cus_mqtt_su.MemPool.{MemPool, memory_pool_alloc, memory_pool_free}
use cursor_embed_cus_mqtt_su.PubSub.{
  PubsubErr, MsgPriority, PubSub, QueueApi, max_name, pubsub_publish,
}
use mathlib.Core.Option

-- The retries of message_handler_config_t; the rest of it is not read.
pub record Config : Type 0 where
  pub retry_count : ℕ
  pub retry_interval_ms : ℕ

-- pending_message_t: `node` is its address, and the data a pointer with the bytes there.
pub record Pending : Type 0 where
  pub node : ℕ
  pub msg_id : ℕ
  pub topic : List ℕ
  pub msg_data : ℕ × List ℕ
  pub data_len : ℕ
  pub priority : MsgPriority
  pub qos : ℕ
  pub retry_count : ℕ
  pub max_retries : ℕ

-- message_handler_ctx, with the core that it publishes to.
pub record Handler (Q : Type 0) : Type 0 where
  pub config : Config
  pub pending_messages : List Pending
  pub next_msg_id : ℕ
  pub core : PubSub Q

-- sizeof(pending_message_t).
abbrev pub pending_size : ℕ
pending_size = 100

-- What a call returns: a code of its own, or that of `pubsub_publish`.
pub data Published : Type 0 where
  invalid_arg no_mem : Published
  told : PubsubErr → Published

-- What a timer does: nothing but a warning, or a publication, and a report where that fails.
pub data Tick : Type 0 where
  exceeded retried retry_failed : Tick

-- The arguments say whether there is a configuration and whether the mutex is made; before, the
-- context is all zero.
pub message_handler_init :
    {Q : Type 0} → Option Config → Bool → PubSub Q → Option Published × Option (Handler Q)
message_handler_init none lock core = (some invalid_arg, none)
message_handler_init (some config) lock core = if not lock then (some no_mem, none) else (
  none,
  some (record { config = config; pending_messages = []; next_msg_id = 1; core = core }),
)

-- `retry_count++` through the pointer of the timer.
pub count_retry : ℕ → List Pending → List Pending
count_retry node [] = []
count_retry node (m ∷ ms) =
    if m.node == node
    then record m { retry_count = (m.retry_count + 1) % 2 ^ 32 } ∷ ms
    else m ∷ count_retry node ms

-- The message at a pointer.
pub find_pending : ℕ → List Pending → Option Pending
find_pending node [] = none
find_pending node (m ∷ ms) = if m.node == node then some m else find_pending node ms

pub tick_of : PubsubErr → Tick
tick_of PubsubErr.ok = retried
tick_of _ = retry_failed

-- For the message that the timer was made for.
pub retry_timer_callback :
    {Q : Type 0} → QueueApi Q → ℕ → Pending → Handler Q → Option (Tick × Handler Q)
retry_timer_callback api now m h =
    if leb m.max_retries m.retry_count
    then some (exceeded, h)
    else Option.map
        (λ r. (
          tick_of r.0,
          record h { pending_messages = count_retry m.node h.pending_messages; core = r.1 },
        ))
        (pubsub_publish api h.core now (some m.topic) (some m.msg_data.1) m.data_len m.priority)

-- The node and the data are out: the copy of the data, and the timer. The identifier is set by the caller.
pub fill_pending :
    Config
    → ℕ
    → ℕ
    → List ℕ
    → List ℕ
    → ℕ
    → MsgPriority
    → ℕ
    → Bool
    → MemPool
    → Option (Option Pending × MemPool)
fill_pending config node ptr topic_name bytes data_len priority qos timer pool =
    if ltb (length bytes) data_len
    then none
    else (if timer
        then some (
          some (record {
            node = node;
            msg_id = 0;
            topic = take (max_name - 1) topic_name;
            msg_data = (ptr, take data_len bytes);
            data_len = data_len;
            priority = priority;
            qos = qos;
            retry_count = 0;
            max_retries = config.retry_count;
          }),
          pool,
        )
        else elim (memory_pool_free pool (some ptr)) [
          | none ↦ none
          | some less ↦ Option.map (λ p. (none, p)) (memory_pool_free less (some node))
        ])

-- The node is out: the data.
pub alloc_data :
    Config
    → ℕ
    → List ℕ
    → List ℕ
    → ℕ
    → MsgPriority
    → ℕ
    → Bool
    → Option ℕ × MemPool
    → Option (Option Pending × MemPool)
unfolding fill_pending
alloc_data config node topic_name bytes data_len priority qos timer (none, pool) =
    Option.map (λ p. (none, p)) (memory_pool_free pool (some node))
alloc_data config node topic_name bytes data_len priority qos timer (some ptr, pool) =
    fill_pending config node ptr topic_name bytes data_len priority qos timer pool

-- The node is asked for.
pub alloc_node :
    Config
    → List ℕ
    → List ℕ
    → ℕ
    → MsgPriority
    → ℕ
    → Bool
    → Option ℕ × MemPool
    → Option (Option Pending × MemPool)
unfolding alloc_data
alloc_node config topic_name bytes data_len priority qos timer (none, pool) = some (none, pool)
alloc_node config topic_name bytes data_len priority qos timer (some node, pool) =
    alloc_data config node topic_name bytes data_len priority qos timer
      (memory_pool_alloc pool data_len)

pub create_pending_message :
    Config
    → MemPool
    → List ℕ
    → List ℕ
    → ℕ
    → MsgPriority
    → ℕ
    → Bool
    → Option (Option Pending × MemPool)
unfolding alloc_node
create_pending_message config pool topic_name bytes data_len priority qos timer =
    alloc_node config topic_name bytes data_len priority qos timer
      (memory_pool_alloc pool pending_size)

module _ {Q : Type 0} (api : QueueApi Q) where
  -- The publication at the end of the call.
  pub publish_now :
      ℕ
      → List ℕ
      → List ℕ
      → ℕ
      → MsgPriority
      → ℕ
      → Handler Q
      → Option ((Published × Option ℕ) × Handler Q)
  publish_now now name bytes data_len priority id h =
      Option.map (λ r. ((told r.0, some id), record h { core = r.1 }))
        (pubsub_publish api h.core now (some name) (some bytes) data_len priority)

  -- The message is pending, or could not be made.
  pub publish_pending :
      ℕ
      → List ℕ
      → List ℕ
      → ℕ
      → MsgPriority
      → ℕ
      → Handler Q
      → Option (Option Pending × MemPool)
      → Option ((Published × Option ℕ) × Handler Q)
  unfolding publish_now
  publish_pending now name bytes data_len priority id h none = none
  publish_pending now name bytes data_len priority id h (some (none, pool)) =
      some ((no_mem, some id), record h { core = record h.core { pool = pool } })
  publish_pending now name bytes data_len priority id h (some (some m, pool)) =
      publish_now now name bytes data_len priority id (record h {
        pending_messages = record m { msg_id = id } ∷ h.pending_messages;
        core = record h.core { pool = pool };
      })

  -- The identifier is taken; a message with a quality of service becomes pending first.
  pub publish_as :
      ℕ
      → List ℕ
      → List ℕ
      → ℕ
      → MsgPriority
      → ℕ
      → Bool
      → ℕ
      → Handler Q
      → Option ((Published × Option ℕ) × Handler Q)
  unfolding publish_pending
  publish_as now name bytes data_len priority qos timer id h =
      if ltb 0 qos
      then publish_pending now name bytes data_len priority id h
          (create_pending_message h.config h.core.pool name bytes data_len priority qos timer)
      else publish_now now name bytes data_len priority id h

  -- `wanted` says whether there is a place for the identifier, and `timer` whether the timer is made. The
  -- result has the identifier where it was written.
  pub message_publish_with_qos :
      ℕ
      → Option (List ℕ)
      → Option (List ℕ)
      → ℕ
      → MsgPriority
      → ℕ
      → Bool
      → Bool
      → Handler Q
      → Option ((Published × Option ℕ) × Handler Q)
  unfolding publish_as
  message_publish_with_qos now none bytes data_len priority qos wanted timer h =
      some ((invalid_arg, none), h)
  message_publish_with_qos now (some name) none data_len priority qos wanted timer h =
      some ((invalid_arg, none), h)
  message_publish_with_qos now (some name) (some bytes) data_len priority qos wanted timer h =
      if data_len == 0 || not wanted
      then some ((invalid_arg, none), h)
      else publish_as now name bytes data_len priority qos timer h.next_msg_id
          (record h { next_msg_id = (h.next_msg_id + 1) % 2 ^ 32 })
