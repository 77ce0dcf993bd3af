-- ===== src/PubSub/Tests.antt =====
-- The theorems on the publish/subscribe core at a concrete state, with queues that are lists.
use cursor_embed_cus_mqtt_su.Base.{
  ℕ, ◌-◌, ◌+◌, ◌≡◌, refl, arith, true, false, List, [], ◌∷◌, none, some,
}
use cursor_embed_cus_mqtt_su.MemPool.{
  MemPool, pool_size, memory_pool_alloc, align8, find_best, replace_at, carve, granted,
}
use cursor_embed_cus_mqtt_su.MemPool.Merge.{IsMerged}
use cursor_embed_cus_mqtt_su.MemPool.Alloc.{IsValid}
use cursor_embed_cus_mqtt_su.PubSub.{
  PubsubErr, low, critical, Msg, Subscriber, Topic, PubSub, same_name, find_topic, find_subscriber,
  update_topic, set_queue, pubsub_subscribe, pubsub_unsubscribe, pubsub_publish, topic_task,
}
use cursor_embed_cus_mqtt_su.PubSub.Invariant.{IsWellFormed}
use cursor_embed_cus_mqtt_su.PubSub.Subscribe.{subscribe_then_unsubscribe}
use mathlib.Core.List.{Perm}
use cursor_embed_cus_mqtt_su.PubSub.ListQueue.{list_api, list_api-IsQueue, fresh, fresh-IsValid}
use cursor_embed_cus_mqtt_su.MemPool.{memory_pool_init}
use cursor_embed_cus_mqtt_su.MemPool.Owned.{out}
use cursor_embed_cus_mqtt_su.PubSub.{pubsub_init}
use cursor_embed_cus_mqtt_su.PubSub.Owned.{owned}
use cursor_embed_cus_mqtt_su.PubSub.Run.{
  Call, create, subscribe, unsubscribe, publish, round, run, run-from_start, step,
}
use cursor_embed_cus_mqtt_su.Base.{◌⊎◌}
use cursor_embed_cus_mqtt_su.PubSub.Abstract.{Same, Moves, view}
use cursor_embed_cus_mqtt_su.PubSub.Abstract.Refine.{step_refines}
use cursor_embed_cus_mqtt_su.PubSub.Publish.{made, publish_critical_delivered}

abbrev name : List ℕ
name = 97 ∷ (98 ∷ [])

abbrev held : Subscriber
held = record { callback = 7; user_data = 8; node = 400 }

abbrev topic : Topic (List Msg)
topic = record { name = name; subscribers = held ∷ []; msg_queue = []; subscriber_count = 1 }

abbrev start : PubSub (List Msg)
start = record { topics = topic ∷ []; spare_name = []; pool = fresh }

found : find_topic name start.topics ≡ some topic
unfolding find_topic same_name
found = refl

not_yet : find_subscriber 9 topic.subscribers ≡ none
unfolding find_subscriber
not_yet = refl

-- The fresh pool with one block of `n` bytes in use, a multiple of 8.
abbrev one_out : ℕ → MemPool
one_out n = record {
  blocks =
      record { addr = 0; size = n; is_free = false }
      ∷ (record { addr = 12 + n; size = pool_size - 24 - n; is_free = true } ∷ []);
  total_size = pool_size;
  used_size = n + 12;
  peak_use = n + 12;
}

node_run : memory_pool_alloc fresh 12 ≡ (some 12, one_out 16)
unfolding memory_pool_alloc align8 find_best replace_at carve granted
node_run = refl

data_run : memory_pool_alloc fresh 2 ≡ (some 12, one_out 8)
unfolding memory_pool_alloc align8 find_best replace_at carve granted
data_run = refl

fresh-IsMerged : IsMerged fresh.blocks
fresh-IsMerged = (refl, tt)

subscribe_then_unsubscribe_example :
    (r : PubSub (List Msg)) × (pubsub_subscribe start (some name) (some 9) 1 ≡ (PubsubErr.ok, r))
    × (u : PubSub (List Msg)) × (pubsub_unsubscribe r (some name) (some 9) ≡ some (PubsubErr.ok, u))
    × (u.topics ≡ start.topics)
    × (u.pool.blocks ≡ fresh.blocks)
    × (u.pool.used_size ≡ 0)
subscribe_then_unsubscribe_example =
    subscribe_then_unsubscribe start name 9 1 12 topic (one_out 16) found not_yet (omega arith)
      node_run fresh-IsValid fresh-IsMerged

abbrev bytes : List ℕ
bytes = 1 ∷ (2 ∷ [])

publish_critical_delivered_example :
    (r : PubSub (List Msg)) × (pubsub_publish list_api start 5 (some name) (some bytes) 2 critical
      ≡ some (PubsubErr.ok, r))
    × (after : PubSub (List Msg)) × (q : List Msg) × (topic_task list_api r name
        ≡ some ((7, 8, made name 5 bytes critical 12) ∷ [], after))
    × (after.topics ≡ update_topic name (set_queue q) r.topics)
    × (q ≡ [])
    × (after.pool.blocks ≡ fresh.blocks)
publish_critical_delivered_example =
    publish_critical_delivered list_api (λ q. q) list_api-IsQueue start 5 12 name bytes critical
      topic (one_out 8) found (omega arith) data_run fresh-IsValid fresh-IsMerged refl (omega arith)

pool_run : memory_pool_init true true ≡ some fresh
unfolding memory_pool_init
pool_run = refl

init_run :
    pubsub_init {Q = List Msg} [] false true (record { topics = []; spare_name = []; pool = fresh })
    ≡ (PubsubErr.ok, true, record { topics = []; spare_name = []; pool = fresh })
unfolding pubsub_init
init_run = refl

-- A topic that is made, read, published to, and read again behind a change of the readers.
abbrev history : List Call
history =
    create true true true (some name)
    ∷ (subscribe (some name) (some 7) 8
        ∷ (publish 5 (some name) (some bytes) 2 low
            ∷ (publish 6 (some name) (some bytes) 1 critical
                ∷ (subscribe (some name) (some 9) 1
                    ∷ (round name ∷ (unsubscribe (some name) (some 7) ∷ []))))))

run-from_start_example :
    (r : PubSub (List Msg)) × (run list_api history
        (record { topics = []; spare_name = []; pool = fresh })
      ≡ some r)
    × IsValid r.pool
    × Perm (owned (λ q. q) r.topics) (out r.pool)
    × IsWellFormed r
run-from_start_example =
    run-from_start list_api (λ q. q) [] fresh history
      (record { topics = []; spare_name = []; pool = fresh }) list_api-IsQueue pool_run init_run
      (tt, (tt, (omega arith, (omega arith, (tt, (tt, (tt, tt)))))))

reader_added :
    step list_api (subscribe (some name) (some 9) 1) start
    ≡ some (pubsub_subscribe start (some name) (some 9) 1).1
unfolding step
reader_added = refl

step_refines_example :
    Same (view (λ q. q) start) (view (λ q. q) (pubsub_subscribe start (some name) (some 9) 1).1)
    ⊎ Moves
        (subscribe (some name) (some 9) 1)
        (view (λ q. q) start)
        (view (λ q. q) (pubsub_subscribe start (some name) (some 9) 1).1)
step_refines_example =
    step_refines list_api (λ q. q) (subscribe (some name) (some 9) 1) start
      (pubsub_subscribe start (some name) (some 9) 1).1 list_api-IsQueue reader_added
