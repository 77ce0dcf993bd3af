-- ===== src/PubSub.antt =====
-- The publish/subscribe core: main/include/pubsub_core.h, main/topic_manager.c,
-- main/subscriber_manager.c and main/publisher.c. A C string is the list of its bytes before the
-- zero, `none` is NULL, and a callback is its address. The queues are FreeRTOS's: a parameter. A
-- call holds `topics_lock` from start to end, so calls are steps that follow each other.
pub mod Topics
pub mod Invariant
pub mod Subscribe
pub mod Publish
pub mod Owned
pub mod Created
pub mod Run
pub mod Abstract
pub mod ListQueue
mod Tests
use cursor_embed_cus_mqtt_su.Base.{
  ℕ, ◌+◌, ◌-◌, ◌%◌, ◌^◌, Bool, true, false, not, ◌&&◌, ◌||◌, List, [], ◌∷◌, ◌++◌, Option, none,
  some, length, take, map, ltb, leb, ◌==◌, if◌then◌else◌,
}
use cursor_embed_cus_mqtt_su.MemPool.{MemPool, memory_pool_alloc, memory_pool_free}
use mathlib.Core.Option

pub data PubsubErr : Type 0 where
  ok invalid_param no_memory topic_exists topic_not_found queue_full max_subscribers : PubsubErr

pub data MsgPriority : Type 0 where
  low normal high critical : MsgPriority

-- The data is a pointer into the pool, with the bytes there.
pub record Msg : Type 0 where
  pub topic : List ℕ
  pub msg_data : Option (ℕ × List ℕ)
  pub data_len : ℕ
  pub priority : MsgPriority
  pub timestamp : ℕ

-- The node is the pointer that the pool gave.
pub record Subscriber : Type 0 where
  pub callback : ℕ
  pub user_data : ℕ
  pub node : ℕ

pub record Topic (Q : Type 0) : Type 0 where
  pub name : List ℕ
  pub subscribers : List Subscriber
  pub msg_queue : Q
  pub subscriber_count : ℕ

-- The first `topic_count` slots of the array, the name in the slot behind them, which a creation that
-- fails leaves there, and the pool. The names of the other slots are empty.
pub record PubSub (Q : Type 0) : Type 0 where
  pub topics : List (Topic Q)
  pub spare_name : List ℕ
  pub pool : MemPool

-- The calls of FreeRTOS on a queue of MAX_QUEUE_SIZE messages. `none` is a full queue for a send
-- and an empty one for a receive.
pub record QueueApi (Q : Type 0) : Type 0 where
  pub created : Q
  pub send : Q → Msg → Option Q
  pub send_to_front : Q → Msg → Option Q
  pub receive : Q → Option (Msg × Q)

abbrev pub max_topics : ℕ
max_topics = 50

abbrev pub max_name : ℕ
max_name = 64

abbrev pub max_subscribers_per_topic : ℕ
max_subscribers_per_topic = 20

abbrev pub max_queue : ℕ
max_queue = 100

-- sizeof(subscriber_t).
abbrev pub subscriber_size : ℕ
subscriber_size = 12

-- `strcmp(a, b) == 0`.
unfoldable pub same_name : List ℕ → List ℕ → Bool
same_name [] [] = true
same_name [] (y ∷ ys) = false
same_name (x ∷ xs) [] = false
same_name (x ∷ xs) (y ∷ ys) = x == y && same_name xs ys

-- The loop that looks for the callback.
pub find_subscriber : ℕ → List Subscriber → Option Subscriber
find_subscriber c [] = none
find_subscriber c (x ∷ xs) = if x.callback == c then some x else find_subscriber c xs

-- The node with the callback, unlinked.
pub remove_subscriber : ℕ → List Subscriber → List Subscriber
remove_subscriber c [] = []
remove_subscriber c (x ∷ xs) = if x.callback == c then xs else x ∷ remove_subscriber c xs

pub data_pointer : Option (ℕ × List ℕ) → Option ℕ
data_pointer none = none
data_pointer (some (ptr, bytes)) = some ptr

module _ {Q : Type 0} where
  -- The search for the topic, which three of the calls share.
  unfoldable pub find_topic : List ℕ → List (Topic Q) → Option (Topic Q)
  find_topic name [] = none
  find_topic name (t ∷ ts) = if same_name t.name name then some t else find_topic name ts

  -- A write through the pointer that the search finds.
  pub update_topic : List ℕ → (Topic Q → Topic Q) → List (Topic Q) → List (Topic Q)
  update_topic name f [] = []
  update_topic name f (t ∷ ts) =
      if same_name t.name name then f t ∷ ts else t ∷ update_topic name f ts

  -- A slot that `memset` has zeroed; `null` is the NULL handle.
  pub zeroed : Q → Topic Q → Topic Q
  zeroed null t = record { name = []; subscribers = []; msg_queue = null; subscriber_count = 0 }

  -- Whether `topics_lock` is made is the first argument and the middle result; the second argument says
  -- whether the heap gives it.
  unfoldable pub pubsub_init : Q → Bool → Bool → PubSub Q → PubsubErr × Bool × PubSub Q
  pubsub_init null made mutex s =
      if made
      then (ok, true, s)
      else (if mutex
          then (ok, true, record s { topics = map (zeroed null) s.topics; spare_name = [] })
          else (no_memory, false, s))

  pub new_topic : QueueApi Q → List ℕ → Topic Q
  new_topic api name = record {
    name = take (max_name - 1) name;
    subscribers = [];
    msg_queue = api.created;
    subscriber_count = 0;
  }

  -- The arguments after the state say whether the heap gives the queue, the mutex and the task.
  unfoldable pub pubsub_create_topic :
      QueueApi Q → PubSub Q → Bool → Bool → Bool → Option (List ℕ) → PubsubErr × PubSub Q
  unfolding new_topic
  pubsub_create_topic api s queue lock task none = (invalid_param, s)
  pubsub_create_topic api s queue lock task (some name) =
      if leb max_name (length name) then (invalid_param, s) else elim (find_topic name s.topics) [
        | some t ↦ (topic_exists, s)
        | none ↦
            if leb max_topics (length s.topics)
            then (no_memory, s)
            else (let named = record s { spare_name = take (max_name - 1) name } in
                if not queue
                then (no_memory, named)
                else (if not lock
                    then (no_memory, named)
                    else (if not task then (no_memory, named) else (
                      ok,
                      record s { topics = s.topics ++ (new_topic api name ∷ []); spare_name = [] },
                    ))))
      ]

  -- The new node at the head of the list.
  pub push_subscriber : Subscriber → Topic Q → Topic Q
  push_subscriber x t = record t {
    subscribers = x ∷ t.subscribers;
    subscriber_count = (t.subscriber_count + 1) % 2 ^ 32;
  }

  pub add_subscriber : PubSub Q → List ℕ → ℕ → ℕ → Option ℕ × MemPool → PubsubErr × PubSub Q
  add_subscriber s name c user (none, pool) = (no_memory, record s { pool = pool })
  add_subscriber s name c user (some node, pool) = (
    ok,
    record s {
      topics =
          update_topic name
            (push_subscriber (record { callback = c; user_data = user; node = node })) s.topics;
      pool = pool;
    },
  )

  pub subscribe_to : PubSub Q → List ℕ → ℕ → ℕ → Topic Q → PubsubErr × PubSub Q
  subscribe_to s name c user t = elim (find_subscriber c t.subscribers) [
    | some x ↦ (invalid_param, s)
    | none ↦
        if leb max_subscribers_per_topic t.subscriber_count
        then (max_subscribers, s)
        else add_subscriber s name c user (memory_pool_alloc s.pool subscriber_size)
  ]

  pub pubsub_subscribe : PubSub Q → Option (List ℕ) → Option ℕ → ℕ → PubsubErr × PubSub Q
  pubsub_subscribe s none callback user = (invalid_param, s)
  pubsub_subscribe s (some name) none user = (invalid_param, s)
  pubsub_subscribe s (some name) (some c) user = elim (find_topic name s.topics) [
    | none ↦ (topic_not_found, s)
    | some t ↦ subscribe_to s name c user t
  ]

  pub drop_subscriber : ℕ → Topic Q → Topic Q
  drop_subscriber c t = record t {
    subscribers = remove_subscriber c t.subscribers;
    subscriber_count = (t.subscriber_count + (2 ^ 32 - 1)) % 2 ^ 32;
  }

  -- `none` where the pool does not know the node.
  pub unsubscribe_from : PubSub Q → List ℕ → ℕ → Topic Q → Option (PubsubErr × PubSub Q)
  unsubscribe_from s name c t = elim (find_subscriber c t.subscribers) [
    | none ↦ some (invalid_param, s)
    | some x ↦
        Option.map
          (λ pool.
            (ok, record s { topics = update_topic name (drop_subscriber c) s.topics; pool = pool }))
          (memory_pool_free s.pool (some x.node))
  ]

  pub pubsub_unsubscribe : PubSub Q → Option (List ℕ) → Option ℕ → Option (PubsubErr × PubSub Q)
  pubsub_unsubscribe s none callback = some (invalid_param, s)
  pubsub_unsubscribe s (some name) none = some (invalid_param, s)
  pubsub_unsubscribe s (some name) (some c) = elim (find_topic name s.topics) [
    | none ↦ some (topic_not_found, s)
    | some t ↦ unsubscribe_from s name c t
  ]

  -- The queue of a topic, replaced.
  pub set_queue : Q → Topic Q → Topic Q
  set_queue q t = record t { msg_queue = q }

  pub send_by_priority : QueueApi Q → Q → Msg → Option Q
  send_by_priority api q m = elim m.priority [ critical ↦ api.send_to_front q m | _ ↦ api.send q m ]

  -- The send and what follows it, with the pool after the copy.
  pub enqueue : QueueApi Q → PubSub Q → List ℕ → Topic Q → Msg → Option (PubsubErr × PubSub Q)
  unfolding data_pointer
  enqueue api s name t m = elim (send_by_priority api t.msg_queue m) [
    | none ↦
        Option.map (λ pool. (queue_full, record s { pool = pool }))
          (memory_pool_free s.pool (data_pointer m.msg_data))
    | some q ↦ some (ok, record s { topics = update_topic name (set_queue q) s.topics })
  ]

  -- The copy of the data, and what follows it. `none` where `memcpy` reads past the data.
  pub copy_and_send :
      QueueApi Q
      → PubSub Q
      → List ℕ
      → Topic Q
      → List ℕ
      → Msg
      → Option ℕ × MemPool
      → Option (PubsubErr × PubSub Q)
  copy_and_send api s name t bytes m (none, pool) = some (no_memory, record s { pool = pool })
  copy_and_send api s name t bytes m (some ptr, pool) =
      if ltb (length bytes) m.data_len
      then none
      else enqueue api (record s { pool = pool }) name t
          (record m { msg_data = some (ptr, take m.data_len bytes) })

  pub publish_to :
      QueueApi Q
      → PubSub Q
      → List ℕ
      → Topic Q
      → Option (List ℕ)
      → Msg
      → Option (PubsubErr × PubSub Q)
  publish_to api s name t none m = enqueue api s name t m
  publish_to api s name t (some bytes) m =
      if ltb 0 m.data_len
      then copy_and_send api s name t bytes m (memory_pool_alloc s.pool m.data_len)
      else enqueue api s name t m

  -- `now` is what esp_timer_get_time gives.
  unfoldable pub pubsub_publish :
      QueueApi Q
      → PubSub Q
      → ℕ
      → Option (List ℕ)
      → Option (List ℕ)
      → ℕ
      → MsgPriority
      → Option (PubsubErr × PubSub Q)
  pubsub_publish api s now none bytes data_len priority = some (invalid_param, s)
  pubsub_publish api s now (some name) bytes data_len priority =
      if (elim bytes [ none ↦ true | some b ↦ false ]) && ltb 0 data_len
      then some (invalid_param, s)
      else elim (find_topic name s.topics) [
        | none ↦ some (topic_not_found, s)
        | some t ↦ publish_to api s name t bytes (record {
          topic = take (max_name - 1) name;
          msg_data = none;
          data_len = data_len;
          priority = priority;
          timestamp = now;
        })
      ]

  -- One round of the task of a topic: the calls it makes, in order, as callback and user data with
  -- the message. Without a message it waits.
  pub deliver : QueueApi Q → PubSub Q → List ℕ → Topic Q → Option (List (ℕ × ℕ × Msg) × PubSub Q)
  unfolding data_pointer
  deliver api s name t = elim (api.receive t.msg_queue) [
    | none ↦ some ([], s)
    | some (m, q) ↦
        Option.map
          (λ pool. (
            map (λ x. (x.callback, x.user_data, m)) t.subscribers,
            record s { topics = update_topic name (set_queue q) s.topics; pool = pool },
          ))
          (memory_pool_free s.pool (data_pointer m.msg_data))
  ]

  -- The topic whose task runs is named; without one there is no such task.
  pub topic_task : QueueApi Q → PubSub Q → List ℕ → Option (List (ℕ × ℕ × Msg) × PubSub Q)
  topic_task api s name = elim (find_topic name s.topics) [
    | none ↦ none
    | some t ↦ deliver api s name t
  ]
